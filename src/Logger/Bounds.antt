-- ===== src/Logger/Bounds.antt =====
-- No log is lost or doubled between AddLog and writeBatch, and the memory it takes is bounded.
use go_flash_job.Base.{
  ℕ, ◌+◌, ◌*◌, ◌≤◌, ◌<◌, ◌≡◌, refl, ap, inl, inr, Bool, Option, some, List, [], ◌∷◌, ◌++◌, arith,
  ltb, leb, ◌==◌, Bool-cases, length, length-append, count, count-append, count-le, one_if,
}
use go_flash_job.Model.{JobLog}
use go_flash_job.Logger.{
  batch_size, flush_queue_size, flush_workers, LogBuffer, flush_locked, add_log, take_batch,
}
use go_flash_job.Logger.Disk.{Os, Disk}
use go_flash_job.Logger.Flow.{
  System, started, Step, adds, ticks, takes, writes, cleans, Reachable, here, next, close_storage,
}

-- The logs of some batches that pass a test.
abbrev pub count_all : (JobLog → Bool) → List (List JobLog) → ℕ
count_all p [] = 0
count_all p (b ∷ r) = count p b + count_all p r

-- A batch is not empty and has at most `batch_size` logs.
abbrev pub AreBatches : List (List JobLog) → Type 0
AreBatches [] = Unit
AreBatches (b ∷ r) = (0 < length b) × (length b ≤ batch_size) × AreBatches r

abbrev pub IsBounded : LogBuffer → Type 0
IsBounded b =
    (length b.buffer < batch_size)
    × (length b.flush_queue ≤ flush_queue_size)
    × AreBatches b.flush_queue

module _ (p : JobLog → Bool) where
  pub count_all-append :
      (a b : List (List JobLog)) → count_all p (a ++ b) ≡ count_all p a + count_all p b
  count_all-append [] b = omega arith
  count_all-append (x ∷ a) b = omega (arith, count_all-append a b)

  -- The logs that pass the test and stand in the buffer or in its queue.
  abbrev in_buffer : LogBuffer → ℕ
  in_buffer b = count p b.buffer + count_all p b.flush_queue

  flush_locked-count :
      (b : LogBuffer) → in_buffer (flush_locked b).0 + count p (flush_locked b).1 ≡ in_buffer b
  unfolding flush_locked
  flush_locked-count b = ground (arith, count_all-append b.flush_queue (b.buffer ∷ []))

  add_log-count :
      (e : JobLog) (b : LogBuffer)
      → in_buffer (add_log e b).0 + count p (add_log e b).1 ≡ one_if (p e) + in_buffer b
  unfolding add_log
  add_log-count e b = ground (
    arith,
    flush_locked-count (record b { buffer = b.buffer ++ e ∷ [] }),
    count-append p b.buffer (e ∷ []),
  )

  take_batch-count :
      (b c : LogBuffer) (batch : List JobLog)
      → take_batch b ≡ some (batch, c)
      → count p batch + in_buffer c ≡ in_buffer b
  unfolding take_batch
  take_batch-count b c batch h = ground arith

  -- The logs that pass the test and are on their way to writeBatch.
  abbrev pub waiting : System → ℕ
  waiting s = in_buffer s.log + count_all p s.held

  abbrev IsKept : System → Type 0
  IsKept s = count p s.added ≡ waiting s + count_all p s.handed + count p s.dropped

  module _ (os : Os) (json_size : JobLog → Option ℕ) (fuel : ℕ) where
    Step-IsKept : {s t : System} → IsKept s → Step os json_size fuel s t → IsKept t
    Step-IsKept {s} kept (adds e) =
        omega (arith, kept, add_log-count e s.log, count-append p s.dropped (add_log e s.log).1)
    Step-IsKept {s} kept ticks =
        omega
          (arith, kept, flush_locked-count s.log, count-append p s.dropped (flush_locked s.log).1)
    Step-IsKept {s} kept (takes batch b room h) =
        omega (arith, kept, take_batch-count s.log b batch h)
    Step-IsKept {s} kept (cleans files left) = kept
    Step-IsKept {s} kept (writes before after batch h) = omega (
      arith,
      kept,
      ap (count_all p) h,
      count_all-append before (batch ∷ after),
      count_all-append before after,
      count_all-append s.handed (batch ∷ []),
    )

    -- However the goroutines interleave, each log that was added is in exactly one place: the
    -- buffer, its queue, the hands of a worker, a batch that was given to writeBatch, or the logs
    -- that a full queue dropped. Lists with equal counts for every test hold the same elements.
    pub Reachable-conserved :
        (d : Disk) {s : System}
        → Reachable os json_size fuel (started d) s
        → count p s.added ≡ waiting s + count_all p s.handed + count p s.dropped
    Reachable-conserved d here = refl
    Reachable-conserved d (next r step) = Step-IsKept (Reachable-conserved d r) step

    -- When StopLogStorage has flushed the buffer and the workers have finished their batches,
    -- every log that was added has been given to writeBatch or was dropped.
    pub close_storage-conserved :
        (d : Disk) {s : System}
        → Reachable os json_size fuel (started d) s
        → s.log.buffer ≡ []
        → s.held ≡ []
        → let t = close_storage os json_size fuel s in
          (t.log.flush_queue ≡ []) × (count p s.added ≡ count_all p t.handed + count p t.dropped)
    unfolding close_storage
    close_storage-conserved d {s} r flushed idle = (
      refl,
      omega (
        arith,
        Reachable-conserved d r,
        count_all-append s.handed s.log.flush_queue,
        ap (count p) flushed,
        ap (count_all p) idle,
      ),
    )

AreBatches-append :
    (q : List (List JobLog)) (b : List JobLog)
    → AreBatches q
    → 0 < length b
    → length b ≤ batch_size
    → AreBatches (q ++ b ∷ [])
AreBatches-append [] b h lo hi = (lo, hi, tt)
AreBatches-append (x ∷ q) b h lo hi = (h.0, h.1, AreBatches-append q b h.2 lo hi)

-- A flush of a buffer that may have reached `batch_size`.
flush_locked-IsBounded :
    (b : LogBuffer)
    → length b.buffer ≤ batch_size
    → length b.flush_queue ≤ flush_queue_size
    → AreBatches b.flush_queue
    → IsBounded (flush_locked b).0
unfolding flush_locked
flush_locked-IsBounded b small short batches = elim (Bool-cases (length b.buffer == 0)) [
  | inl e ↦ rw e (ground arith, short, batches)
  | inr e ↦ elim (Bool-cases (ltb (length b.flush_queue) flush_queue_size)) [
    | inl room ↦
        rw (e, room)
          (
            omega arith,
            ground (arith, length-append b.flush_queue (b.buffer ∷ [])),
            AreBatches-append b.flush_queue b.buffer batches (ground arith) small,
          )
    | inr full ↦ rw (e, full) (omega arith, short, batches)
  ]
]

add_log-IsBounded : (e : JobLog) (b : LogBuffer) → IsBounded b → IsBounded (add_log e b).0
unfolding add_log
add_log-IsBounded e b (small, short, batches) =
    elim (Bool-cases (leb batch_size (length (b.buffer ++ e ∷ [])))) [
      | inl full ↦ rw full (
          flush_locked-IsBounded (record b { buffer = b.buffer ++ e ∷ [] })
            (omega (arith, length-append b.buffer (e ∷ []))) short batches)
      | inr room ↦ rw room (ground arith, short, batches)
    ]

take_batch-IsBounded :
    (b c : LogBuffer) (batch : List JobLog)
    → take_batch b ≡ some (batch, c)
    → IsBounded b
    → (0 < length batch) × (length batch ≤ batch_size) × IsBounded c
unfolding take_batch
take_batch-IsBounded b c batch h (small, short, batches) = taken b.flush_queue refl
  where
    taken :
        (q : List (List JobLog))
        → b.flush_queue ≡ q
        → (0 < length batch) × (length batch ≤ batch_size) × IsBounded c
    taken [] e = absurd (ground arith)
    taken (x ∷ r) e =
        let first : x ≡ batch = ground arith in
        let rest : c ≡ record b { flush_queue = r } = ground arith in
        let (lo, hi, more) : AreBatches (x ∷ r) = rw e at batches in
        (
          omega (arith, ap (λ (l : List JobLog). length l) first),
          omega (arith, ap (λ (l : List JobLog). length l) first),
          rw rest (small, omega (arith, ap (λ (l : List (List JobLog)). length l) e), more),
        )

-- The buffer is bounded, and the workers hold at most two batches.
abbrev IsSmall : System → Type 0
IsSmall s = IsBounded s.log × (length s.held ≤ flush_workers) × AreBatches s.held

AreBatches-without :
    (before after : List (List JobLog)) (b : List JobLog)
    → AreBatches (before ++ b ∷ after)
    → AreBatches (before ++ after)
AreBatches-without [] after b h = h.2
AreBatches-without (x ∷ r) after b h = (h.0, h.1, AreBatches-without r after b h.2)

module _ (os : Os) (json_size : JobLog → Option ℕ) (fuel : ℕ) where
  Step-IsSmall : {s t : System} → IsSmall s → Step os json_size fuel s t → IsSmall t
  Step-IsSmall {s} (bounded, few, batches) (adds e) =
      (add_log-IsBounded e s.log bounded, few, batches)
  Step-IsSmall {s} (bounded, few, batches) ticks =
      (flush_locked-IsBounded s.log (omega (arith, bounded.0)) bounded.1 bounded.2, few, batches)
  Step-IsSmall {s} (bounded, few, batches) (takes batch b room h) =
      let (lo, hi, more) = take_batch-IsBounded s.log b batch h bounded in
      (more, omega arith, (lo, hi, batches))
  Step-IsSmall {s} small (cleans files left) = small
  Step-IsSmall {s} (bounded, few, batches) (writes before after batch h) = (
    bounded,
    omega (
      arith,
      few,
      ap (λ (l : List (List JobLog)). length l) h,
      length-append before (batch ∷ after),
      length-append before after,
    ),
    AreBatches-without before after batch (rw h at batches),
  )

  Reachable-IsSmall :
      (d : Disk) {s : System} → Reachable os json_size fuel (started d) s → IsSmall s
  Reachable-IsSmall d here = ((omega arith, omega arith, tt), omega arith, tt)
  Reachable-IsSmall d (next r step) = Step-IsSmall (Reachable-IsSmall d r) step

  count_all-le :
      (p : JobLog → Bool) (q : List (List JobLog))
      → AreBatches q
      → count_all p q ≤ length q * batch_size
  count_all-le p [] h = omega arith
  count_all-le p (b ∷ q) h = omega (arith, count-le p b, count_all-le p q h.2, h.1)

  -- In every reachable state the buffer holds fewer than 100 logs, the queue at most 256 batches
  -- and the workers two, each of 1 to 100 logs: at most 25899 logs wait in memory.
  pub Reachable-bounded :
      (d : Disk) {s : System}
      → Reachable os json_size fuel (started d) s
      → (length s.log.buffer < batch_size)
        × (length s.log.flush_queue ≤ flush_queue_size)
        × (length s.held ≤ flush_workers)
        × AreBatches s.log.flush_queue
        × AreBatches s.held
        × ((p : JobLog → Bool) → waiting p s ≤ 25899)
  Reachable-bounded d {s} r =
      let ((small, short, batches), few, held) = Reachable-IsSmall d r in
      (
        small,
        short,
        few,
        batches,
        held,
        λ p. omega (
          arith,
          count-le p s.log.buffer,
          count_all-le p s.log.flush_queue batches,
          count_all-le p s.held held,
        ),
      )
