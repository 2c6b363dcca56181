-- ===== src/Logger/Whole.antt =====
-- writeBatch when the operating system works: every batch is written whole, and no file grows over
-- the limit.
use mathlib.Core.List.{append-nil}
use go_flash_job.Base.{
  ℕ, suc, ◌+◌, ◌≤◌, ◌<◌, ◌≡◌, refl, sym, ap, ◌∙◌, ◌≢◌, ◌⊎◌, inl, inr, true, false, Option, none,
  some, List, [], ◌∷◌, ◌++◌, arith, ltb, Bool-cases, Option-cases, length, length-append,
}
use go_flash_job.Model.{JobLog}
use go_flash_job.Logger.Disk.{
  FileName, rotated, line, File, size_of, opens, Os, Disk, Outcome, done, failed, hung, content,
  called, if_done, open_current_file_locked, write_line, make_room, write_entry, write_batch,
  init_disk, open_current_file,
}
use go_flash_job.Logger.Lines.{
  entries, ends_torn, torn_after-append, archived, log_of, all_encodable,
}
use go_flash_job.Logger.Append.{Grown, write_batch-Grown}
use go_flash_job.Logger.Free.{rotate_file_locked-rotates}

pub record IsWorking (os : Os) : Type 0 where
  pub stats : (n : ℕ) → os.stat_fails n ≡ false
  pub moves : (n : ℕ) → os.renames n ≡ true
  pub opens_all : (n : ℕ) → os.opening n ≡ opens
  pub writes : (n : ℕ) → os.write_fails n ≡ none

-- `job.log` is open, its size is the one that is kept, and it ends with a whole line.
pub record IsOpen (d : Disk) : Type 0 where
  pub file : File
  pub is_log : d.job_log ≡ some file
  pub is_opened : d.opened ≡ true
  pub is_size : d.current_size ≡ size_of file
  pub is_whole : ends_torn file ≡ false

-- No file of the directory is larger than `max`.
abbrev pub AllWithin : ℕ → List (FileName × File) → Type 0
AllWithin max [] = Unit
AllWithin max ((name, f) ∷ r) = (size_of f ≤ max) × AllWithin max r

abbrev pub IsWithin : ℕ → Disk → Type 0
IsWithin max d = (size_of (content d.job_log) ≤ max) × AllWithin max d.others

-- Every line, with its newline, has room in an empty file.
abbrev pub AllFit : (JobLog → Option ℕ) → ℕ → List JobLog → Type 0
AllFit json_size max [] = Unit
AllFit json_size max (e ∷ r) =
    ((n : ℕ) → json_size e ≡ some n → suc n ≤ max) × AllFit json_size max r

AllWithin-append :
    (max : ℕ) (r : List (FileName × File)) (name : FileName) (f : File)
    → AllWithin max r
    → size_of f ≤ max
    → AllWithin max (r ++ (name, f) ∷ [])
AllWithin-append max [] name f h le = (le, tt)
AllWithin-append max (x ∷ r) name f h le = (h.0, AllWithin-append max r name f h.1 le)

size_of-append : (f : File) (e : JobLog) (n : ℕ) → size_of (f ++ line e n ∷ []) ≡ size_of f + n
size_of-append [] e n = omega arith
size_of-append (c ∷ f) e n = omega (arith, size_of-append f e n)

module _ (os : Os) (works : IsWorking os) where
  open works use {stats, moves, opens_all, writes}

  -- What a step leaves: it is done, the file stays open and within the limit, and there are at most
  -- `k` files.
  abbrev pub IsReady : ℕ → ℕ → Disk → Type 0
  IsReady max k d = IsOpen d × IsWithin max d × (d.max_size_bytes ≡ max) × (length d.others ≤ k)

  abbrev pub IsDone : ℕ → ℕ → Outcome × Disk → Type 0
  IsDone max k w = (w.0 ≡ done) × IsReady max k w.1

  make_room-IsDone :
      (fuel max k n : ℕ) (d : Disk)
      → IsReady max k d
      → k < fuel
      → n ≤ max
      → IsDone max (suc k) (make_room os fuel n d)
        × ((make_room os fuel n d).1.current_size + n ≤ max)
  unfolding make_room
  make_room-IsDone fuel max k n d (open_d, within, is_max, few) enough fits =
      elim (Bool-cases (ltb d.max_size_bytes (d.current_size + n))) [
        | inl full ↦
            let (found, first, c, e) =
              rotate_file_locked-rotates os stats moves opens_all fuel d open_d.file open_d.is_log
                (omega arith) in
            rw (full, e)
              (
                (
                  refl,
                  (
                    record {
                      file = [];
                      is_log = refl;
                      is_opened = refl;
                      is_size = refl;
                      is_whole = refl;
                    },
                    (
                      omega arith,
                      AllWithin-append max d.others (rotated (os.day d.calls) found) open_d.file
                          within.1 (rw open_d.is_log at within.0),
                    ),
                    is_max,
                    omega (
                      arith,
                      length-append d.others ((rotated (os.day d.calls) found, open_d.file) ∷ []),
                    ),
                  ),
                ),
                omega arith,
              )
        | inr room ↦ rw room ((refl, (open_d, within, is_max, omega arith)), ground arith)
      ]

  written : Disk → File → JobLog → ℕ → Disk
  written d f e n = record (called d) {
    job_log = some (f ++ line e n ∷ []);
    current_size = d.current_size + n;
  }

  write_line-written :
      (e : JobLog) (n : ℕ) (d : Disk) (open_d : IsOpen d)
      → write_line os e n d ≡ (done, written d open_d.file e n)
  unfolding write_line written
  write_line-written e n d open_d =
      ground (arith, open_d.is_opened, writes d.calls) ∙ ap at_content open_d.is_log
    where
      at_content : Option File → Outcome × Disk
      at_content o = (done, written d (content o) e n)

  write_line-IsDone :
      (e : JobLog) (max k n : ℕ) (d : Disk)
      → IsReady max k d
      → d.current_size + n ≤ max
      → IsDone max k (write_line os e n d)
  unfolding written
  write_line-IsDone e max k n d (open_d, within, is_max, few) fits =
      rw (write_line-written e n d open_d) (
        refl,
        (
          record {
            file = open_d.file ++ line e n ∷ [];
            is_log = refl;
            is_opened = open_d.is_opened;
            is_size = omega (arith, size_of-append open_d.file e n, open_d.is_size);
            is_whole = torn_after-append false open_d.file (line e n ∷ []);
          },
          (omega (arith, size_of-append open_d.file e n, open_d.is_size), within.1),
          is_max,
          few,
        ),
      )

  then_line :
      (e : JobLog) (max k n : ℕ) (w : Outcome × Disk)
      → IsDone max k w
      → w.1.current_size + n ≤ max
      → IsDone max k (if_done w (write_line os e n))
  then_line e max k n (done, d) (is, ready) fits = write_line-IsDone e max k n d ready fits
  then_line e max k n (failed, d) (is, ready) fits = absurd cc
  then_line e max k n (hung, d) (is, ready) fits = absurd cc

  module _ (json_size : JobLog → Option ℕ) (fuel max : ℕ) where
    write_entry-IsDone :
        (e : JobLog) (k : ℕ) (d : Disk)
        → ((n : ℕ) → json_size e ≡ some n → suc n ≤ max)
        → IsReady max k d
        → k < fuel
        → IsDone max (suc k) (write_entry os json_size fuel e d)
    unfolding write_entry
    write_entry-IsDone e k d fits ready enough = elim (Option-cases (json_size e)) [
      | inl h ↦ rw (write_entry, h) (refl, (ready.0, ready.1, ready.2, omega (arith, ready.3)))
      | inr (n, h) ↦
          let (room, size) = make_room-IsDone fuel max k (suc n) d ready enough (fits n h) in
          rw (write_entry, h)
            (then_line e max (suc k) (suc n) (make_room os fuel (suc n) d) room size)
    ]

    then_batch :
        (b : List JobLog) (k : ℕ) (w : Outcome × Disk) (next : Disk → Outcome × Disk)
        → IsDone max (suc k) w
        → ((d : Disk) → IsReady max (suc k) d → IsDone max (suc k + length b) (next d))
        → IsDone max (k + suc (length b)) (if_done w next)
    then_batch b k (done, d) next h go = widened (go d h.1)
      where
        widened : IsDone max (suc k + length b) (next d) → IsDone max (k + suc (length b)) (next d)
        widened (is, r) = (is, (r.0, r.1, r.2, omega (arith, r.3)))
    then_batch b k (failed, d) next h go = absurd (cc)
    then_batch b k (hung, d) next h go = absurd (cc)

    pub ready-write_batch :
        (b : List JobLog) (k : ℕ) (d : Disk)
        → AllFit json_size max b
        → IsReady max k d
        → k + length b < suc fuel
        → IsDone max (k + length b) (write_batch os json_size fuel b d)
    unfolding write_batch
    ready-write_batch [] k d fit ready enough =
        (refl, (ready.0, ready.1, ready.2, omega (arith, ready.3)))
    ready-write_batch (e ∷ r) k d fit ready enough =
        then_batch r k (write_entry os json_size fuel e d) (write_batch os json_size fuel r)
          (write_entry-IsDone e k d fit.0 ready (omega arith))
          (λ t more. ready-write_batch r (suc k) t fit.1 more (omega arith))

    -- With a system that works, on an open log whose files are within the limit and on enough fuel,
    -- a batch of lines that each fit a file is written whole: the log grows by its encodable
    -- entries in order, and `job.log` is open and every file within the limit again.
    pub write_batch-whole :
        (b : List JobLog) (d : Disk)
        → IsOpen d
        → d.max_size_bytes ≡ max
        → IsWithin max d
        → AllFit json_size max b
        → length d.others + length b ≤ fuel
        → let (r, t) = write_batch os json_size fuel b d in
          (r ≡ done)
          × (log_of t ≡ log_of d ++ all_encodable json_size b)
          × IsOpen t
          × IsWithin max t
    write_batch-whole b d open_d is_max within fit enough =
        let (is, after) =
          ready-write_batch b (length d.others) d fit (open_d, within, is_max, omega arith)
            (omega arith) in
        let (first, rest, split, log, whole) = write_batch-Grown os json_size fuel b d in
        (
          is,
          grown (all_encodable json_size first) (write_batch os json_size fuel b d).1 log
              ∙ ap (λ l. log_of d ++ all_encodable json_size l)
                  (sym (all_first first rest split (whole_of rest whole is))),
          after.0,
          after.1,
        )
      where
        grown :
            (l : List JobLog) (t : Disk) → Grown os json_size fuel l d t → log_of t ≡ log_of d ++ l
        grown l t (inl log) = log
        grown l t (inr (glued, lost)) =
            absurd (
              ground (arith, ap (λ o. ends_torn (content o)) open_d.is_log, open_d.is_whole, glued))

        whole_of :
            {o : Outcome} (rest : List JobLog) → (o ≢ done) ⊎ (rest ≡ []) → o ≡ done → rest ≡ []
        whole_of rest (inl not_done) is = absurd (not_done is)
        whole_of rest (inr none_left) is = none_left

        all_first : (first rest : List JobLog) → b ≡ first ++ rest → rest ≡ [] → b ≡ first
        all_first first rest split none_left = split ∙ rw none_left (append-nil first)

  -- After InitLogStorage a `job.log` that ends with a whole line is open, with the files that were there.
  pub init_disk-IsOpen :
      (max : ℕ) (job_log : Option File) (others : List (FileName × File))
      → ends_torn (content job_log) ≡ false
      → let (r, d) = init_disk os max job_log others in
        (r ≡ done)
        × IsOpen d
        × (d.max_size_bytes ≡ max)
        × (log_of d ≡ archived others ++ entries (content job_log))
  unfolding init_disk open_current_file open_current_file_locked
  init_disk-IsOpen max job_log others ends =
      rw (init_disk, open_current_file, open_current_file_locked, opens_all 0)
        (
          refl,
          record {
            file = content job_log;
            is_log = refl;
            is_opened = refl;
            is_size = refl;
            is_whole = ends;
          },
          refl,
          refl,
        )
