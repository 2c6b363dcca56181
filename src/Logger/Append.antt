-- ===== src/Logger/Append.antt =====
-- What the storage holds, as one log to which writeBatch appends.
use Prim.Native.String.{String}
use mathlib.Core.List.{append-nil, append_assoc}
use go_flash_job.Base.{
  ℕ, zero, suc, ◌+◌, ◌-◌, ltb, Bool-cases, ◌≡◌, refl, sym, ap, ◌∙◌, ◌≢◌, ◌⊎◌, inl, inr, Bool, true,
  false, Option, none, some, List, [], ◌∷◌, ◌++◌, arith, if◌then◌else◌, Option-cases,
}
use go_flash_job.Model.{JobLog}
use go_flash_job.Logger.Free.{free_seq-calls}
use go_flash_job.Logger.Disk.{
  FileName, rotated, Chunk, line, torn, File, Os, Disk, Outcome, done, failed, hung, content,
  open_current_file_locked, free_seq, rename, reopened, rotate_file_locked, write_line, if_done,
  make_room, write_entry, write_batch,
}
use go_flash_job.Logger.Lines.{
  ends_torn, whole_lines, entries, archived, log_of, whole_lines-append, torn_after-append,
  archived-append, is_torn, Same, encodable, all_encodable,
}

module _ (os : Os) where
  open_current_file_locked-Same : (d : Disk) → Same d (open_current_file_locked os d).1
  unfolding open_current_file_locked
  open_current_file_locked-Same d = (ground arith, λ h. ground arith)

  free_seq-log :
      (fuel : ℕ) (date : String) (seq : ℕ) (d : Disk) → Same d (free_seq os fuel date seq d).1
  free_seq-log fuel date seq d =
      let (n, e) = free_seq-calls os fuel date seq d in rw e (refl, λ h. h)

  rename-Same : (name : FileName) (d : Disk) → Same d (rename os name d)
  unfolding rename
  rename-Same name d = (grind (arith, archived-append, append-nil), λ h. ground arith)

  Same-trans : (d t u : Disk) → Same d t → Same t u → Same d u
  Same-trans d t u (p, q) (p', q') = (p' ∙ p, λ h. q (q' h))

  reopened-Same : (date : String) (r : Option ℕ × Disk) → Same r.1 (reopened os date r).1
  unfolding reopened
  reopened-Same date (none, d) = (refl, λ h. h)
  reopened-Same date (some seq, d) =
      Same-trans d (rename os (rotated date seq) d)
        (open_current_file_locked os (rename os (rotated date seq) d)).1
        (rename-Same (rotated date seq) d)
        (open_current_file_locked-Same (rename os (rotated date seq) d))

  rotate_file_locked-Same : (fuel : ℕ) (d : Disk) → Same d (rotate_file_locked os fuel d).1
  unfolding rotate_file_locked
  rotate_file_locked-Same fuel d =
      Same-trans d (free_seq os fuel (os.day d.calls) 1 closed).1 (rotate_file_locked os fuel d).1
        (free_seq-log fuel (os.day d.calls) 1 closed)
        (reopened-Same (os.day d.calls) (free_seq os fuel (os.day d.calls) 1 closed))
    where
      closed : Disk
      closed = record d { opened = false }

  make_room-Same : (fuel n : ℕ) (d : Disk) → Same d (make_room os fuel n d).1
  unfolding make_room
  make_room-Same fuel n d = elim (Bool-cases (ltb d.max_size_bytes (d.current_size + n))) [
    | inl full ↦ rw full (rotate_file_locked-Same fuel d)
    | inr room ↦ rw room (refl, λ h. h)
  ]

  -- A line that is written ends in a newline, and is lost if job.log ended in the middle of a line.
  abbrev Wrote : JobLog → Disk → Outcome × Disk → Type 0
  Wrote e d (done, t) =
      (is_torn t ≡ false)
      × ((log_of t ≡ log_of d ++ e ∷ []) ⊎ ((is_torn d ≡ true) × (log_of t ≡ log_of d)))
  Wrote e d (o, t) = log_of t ≡ log_of d

  lines_after :
      (f : File) (c : Chunk) (others : List JobLog)
      → others ++ entries (f ++ c ∷ [])
        ≡ (others ++ entries f) ++ whole_lines (ends_torn f) (c ∷ [])
  lines_after f c others =
      ap (◌++◌ others) (whole_lines-append false f (c ∷ []))
      ∙ sym (append_assoc others (entries f) (whole_lines (ends_torn f) (c ∷ [])))

  torn_nothing : (b : Bool) (e : JobLog) (n : ℕ) → whole_lines b (torn e n ∷ []) ≡ []
  torn_nothing b e zero = refl
  torn_nothing b e (suc n) = refl

  write_line-Wrote : (e : JobLog) (n : ℕ) (d : Disk) → Wrote e d (write_line os e n d)
  unfolding write_line
  write_line-Wrote e n d = elim (Bool-cases d.opened) [
    | inr closed ↦ rw closed refl
    | inl open_d ↦ elim (Option-cases (os.write_fails d.calls)) [
      | inr (k, fails) ↦
          let m = if ltb k n then k else n - 1 in
          rw (open_d, fails)
            (lines_after (content d.job_log) (torn e m) (archived d.others)
              ∙ rw torn_nothing (append-nil (log_of d)))
      | inl works ↦
          let after = lines_after (content d.job_log) (line e n) (archived d.others) in
          rw (open_d, works)
            (
              torn_after-append false (content d.job_log) (line e n ∷ []),
              elim (Bool-cases (is_torn d)) [
                | inl glued ↦ inr (glued, after ∙ rw glued (append-nil (log_of d)))
                | inr fresh ↦ inl (after ∙ rw fresh refl)
              ],
            )
    ]
  ]

  -- A line that is written after the first bytes of one is lost.
  write_line-lost :
      (e : JobLog) (n : ℕ) (d : Disk)
      → is_torn d ≡ true
      → (write_line os e n d).0 ≡ done
      → log_of (write_line os e n d).1 ≡ log_of d
  unfolding write_line
  write_line-lost e n d glued = elim (Bool-cases d.opened) [
    | inr closed ↦ rw closed (λ h. refl)
    | inl open_d ↦ elim (Option-cases (os.write_fails d.calls)) [
      | inr (k, fails) ↦ rw (open_d, fails) (λ h. absurd cc)
      | inl works ↦
          rw (open_d, works)
            (λ h.
              lines_after (content d.job_log) (line e n) (archived d.others)
              ∙ rw glued (append-nil (log_of d)))
    ]
  ]

  module _ (json_size : JobLog → Option ℕ) (fuel : ℕ) where
    Wrote-after :
        (e : JobLog) (d t : Disk) (w : Outcome × Disk) → Same d t → Wrote e t w → Wrote e d w
    Wrote-after e d t (done, u) (log, worse) (fresh, inl p) = (fresh, inl (p ∙ rw log refl))
    Wrote-after e d t (done, u) (log, worse) (fresh, inr (glued, p)) =
        (fresh, inr (worse glued, p ∙ log))
    Wrote-after e d t (failed, u) (log, worse) h = h ∙ log
    Wrote-after e d t (hung, u) (log, worse) h = h ∙ log

    in_room :
        (e : JobLog) (n : ℕ) (d : Disk) (r : Outcome × Disk)
        → Same d r.1
        → Wrote e d (if_done r (write_line os e n))
    in_room e n d (done, t) same = Wrote-after e d t _ same (write_line-Wrote e n t)
    in_room e n d (failed, t) same = same.0
    in_room e n d (hung, t) same = same.0

    write_entry-Wrote :
        (e : JobLog) (n : ℕ) (d : Disk)
        → json_size e ≡ some n
        → Wrote e d (write_entry os json_size fuel e d)
    unfolding write_entry
    write_entry-Wrote e n d h =
        rw (write_entry, h)
          (in_room e (suc n) d (make_room os fuel (suc n) d) (make_room-Same fuel (suc n) d))

    -- The log has grown by the entries, but for the first one if job.log ended in the middle of a
    -- line.
    abbrev pub Grown : List JobLog → Disk → Disk → Type 0
    Grown l d t =
        (log_of t ≡ log_of d ++ l)
        ⊎ ((is_torn d ≡ true)
            × ((x : JobLog) × (more : List JobLog) × (l ≡ x ∷ more)
                × (log_of t ≡ log_of d ++ more)))

    abbrev IsPrefixWritten : List JobLog → Disk → Outcome × Disk → Type 0
    IsPrefixWritten b d w =
        (first : List JobLog) × (rest : List JobLog) × (b ≡ first ++ rest)
        × Grown (all_encodable json_size first) d w.1
        × ((w.0 ≢ done) ⊎ (rest ≡ []))

    stopped :
        (b : List JobLog) (d : Disk) (w : Outcome × Disk)
        → w.0 ≢ done
        → log_of w.1 ≡ log_of d
        → IsPrefixWritten b d w
    stopped b d w not_done log =
        ([], b, refl, inl (log ∙ sym (append-nil (log_of d))), inl not_done)

    line_first :
        (e : JobLog) (l : List JobLog) (d t u : Disk)
        → Wrote e d (done, t)
        → Grown l t u
        → Grown (e ∷ l) d u
    line_first e l d t u (fresh, wrote) (inr (glued, more)) = absurd (ground (arith, fresh, glued))
    line_first e l d t u (fresh, inl p) (inl log) =
        inl (log ∙ rw p (append_assoc (log_of d) (e ∷ []) l))
    line_first e l d t u (fresh, inr (glued, p)) (inl log) =
        inr (glued, (e, l, refl, log ∙ ap (λ m. m ++ l) p))

    after_line :
        (e : JobLog) (r : List JobLog) (n : ℕ) (d : Disk) (w : Outcome × Disk)
        (k : Disk → Outcome × Disk)
        → json_size e ≡ some n
        → Wrote e d w
        → ((t : Disk) → IsPrefixWritten r t (k t))
        → IsPrefixWritten (e ∷ r) d (if_done w k)
    after_line e r n d (done, t) k h wrote go =
        let (first, rest, split, grown, whole) = go t in
        (
          e ∷ first,
          rest,
          ap (◌∷◌ e) split,
          rw (encodable, h) (line_first e (all_encodable json_size first) d t (k t).1 wrote grown),
          whole,
        )
    after_line e r n d (failed, t) k h log go = stopped (e ∷ r) d (failed, t) (λ q. cc) log
    after_line e r n d (hung, t) k h log go = stopped (e ∷ r) d (hung, t) (λ q. cc) log

    skipped :
        (e : JobLog) (d : Disk) → json_size e ≡ none → write_entry os json_size fuel e d ≡ (done, d)
    unfolding write_entry
    skipped e d h = rw (write_entry, h) refl

    pub write_batch-Grown :
        (b : List JobLog) (d : Disk) → IsPrefixWritten b d (write_batch os json_size fuel b d)
    unfolding write_batch
    write_batch-Grown [] d = ([], [], refl, inl (sym (append-nil (log_of d))), inr refl)
    write_batch-Grown (e ∷ r) d = elim (Option-cases (json_size e)) [
      | inl h ↦
          let (first, rest, split, grown, whole) = write_batch-Grown r d in
          rw (skipped e d h) (e ∷ first, rest, ap (◌∷◌ e) split, rw (encodable, h) grown, whole)
      | inr (n, h) ↦
          after_line e r n d (write_entry os json_size fuel e d) (write_batch os json_size fuel r) h
            (write_entry-Wrote e n d h) (write_batch-Grown r)
    ]

    -- Whatever the system answers, writeBatch appends the encodable entries of a first part of the
    -- batch, in order, and nothing else; only the first of them can be lost, and only if job.log
    -- ended in the middle of a line, as a failed Write leaves it: a line that is written there, by
    -- a Write that reports no error, is lost. A batch that is done has no other part.
    pub write_batch-appends :
        (b : List JobLog) (d : Disk)
        → let w = write_batch os json_size fuel b d in
          ((first : List JobLog) × (rest : List JobLog) × (b ≡ first ++ rest)
            × ((log_of w.1 ≡ log_of d ++ all_encodable json_size first)
                ⊎ ((is_torn d ≡ true)
                    × ((x : JobLog) × (more : List JobLog) × (all_encodable json_size first
                          ≡ x ∷ more)
                        × (log_of w.1 ≡ log_of d ++ more))))
            × ((w.0 ≢ done) ⊎ (rest ≡ [])))
          × ((e : JobLog) (n : ℕ)
              → is_torn d ≡ true
              → (write_line os e n d).0 ≡ done
              → log_of (write_line os e n d).1 ≡ log_of d)
    write_batch-appends b d =
        (write_batch-Grown b d, λ e n glued written. write_line-lost e n d glued written)
