-- ===== src/Logger/Disk.antt =====
-- The files of buffer.go: the directory of the logs, `job.log` and the files it was rotated to.
--
-- What the operating system answers is an `Os`: the answer to the n-th call, for every n. The
-- length of the JSON of an entry is a parameter, `none` where json.Marshal fails.
use Prim.Native.String.{String}
use text.Mathlib.Text.{◌==◌ as str_eq}
use go_flash_job.Base.{
  ℕ, zero, suc, ◌+◌, ◌-◌, Bool, true, false, not, ◌&&◌, ◌||◌, Option, none, some, List, [], ◌∷◌,
  ◌++◌, ltb, ◌==◌, if◌then◌else◌,
}
use go_flash_job.Model.{JobLog}

-- A file of the directory other than `job.log`: `rotated date seq` is `job-<date>-<seq>.log`,
-- which no `other` text spells.
pub data FileName : Type 0 where
  rotated : String → ℕ → FileName
  other : String → FileName

abbrev pub name_eq : FileName → FileName → Bool
name_eq (rotated d n) (rotated e m) = str_eq d e && n == m
name_eq (other s) (other t) = str_eq s t
name_eq _ _ = false

-- What one Write leaves in a file: a line of that many bytes, or the first bytes of
-- one, without its newline.
pub data Chunk : Type 0 where
  line : JobLog → ℕ → Chunk
  torn : JobLog → ℕ → Chunk

abbrev pub File : Type 0
File = List Chunk

abbrev pub chunk_size : Chunk → ℕ
chunk_size (line e n) = n
chunk_size (torn e n) = n

abbrev pub size_of : File → ℕ
size_of [] = 0
size_of (c ∷ f) = chunk_size c + size_of f

-- How an open with O_CREATE and the Stat after it end.
pub data Opening : Type 0 where
  opens cannot_open cannot_stat : Opening

pub record Os : Type 0 where
  -- The day that time.Now shows.
  pub day : ℕ → String
  -- Stat fails in another way than with "does not exist".
  pub stat_fails : ℕ → Bool
  pub renames : ℕ → Bool
  pub opening : ℕ → Opening
  -- A Write that fails after that many bytes, or after all but one if it has not that many.
  pub write_fails : ℕ → Option ℕ

-- The directory with the fields of LogBuffer that `fileMu` guards: `opened` tells whether
-- currentFile is open, and `calls` counts the calls of the system.
pub record Disk : Type 0 where
  pub job_log : Option File
  pub others : List (FileName × File)
  pub opened : Bool
  pub current_size : ℕ
  pub max_size_bytes : ℕ
  pub calls : ℕ

-- `hung` is a loop that has not ended within the fuel.
pub data Outcome : Type 0 where
  done failed hung : Outcome

abbrev pub content : Option File → File
content none = []
content (some f) = f

abbrev pub is_file : FileName → List (FileName × File) → Bool
is_file n [] = false
is_file n ((m, f) ∷ r) = name_eq m n || is_file n r

abbrev pub called : Disk → Disk
called d = record d { calls = suc d.calls }

-- `if err != nil { return err }`
abbrev pub if_done : Outcome × Disk → (Disk → Outcome × Disk) → Outcome × Disk
if_done (done, d) f = f d
if_done (failed, d) f = (failed, d)
if_done (hung, d) f = (hung, d)

module _ (os : Os) where
  -- openCurrentFileLocked
  unfoldable pub open_current_file_locked : Disk → Outcome × Disk
  open_current_file_locked d =
      let created : Disk = record (called d) { job_log = some (content d.job_log) } in
      elim (os.opening d.calls) [
        | opens ↦
            (done, record created { opened = true; current_size = size_of (content d.job_log) })
        | cannot_open ↦ (failed, called d)
        | cannot_stat ↦ (failed, created)
      ]

  -- openCurrentFile is the same with the lock taken; InitLogStorage opens the file with it.
  unfoldable pub open_current_file : Disk → Outcome × Disk
  unfolding open_current_file_locked
  open_current_file d = open_current_file_locked d

  -- The part of InitLogStorage about the files: what it starts from is closed.
  unfoldable pub init_disk : ℕ → Option File → List (FileName × File) → Outcome × Disk
  unfolding open_current_file
  init_disk max job_log others = open_current_file (record {
    job_log = job_log;
    others = others;
    opened = false;
    current_size = 0;
    max_size_bytes = max;
    calls = 0;
  })

  -- The loop that looks for a free name, on fuel: the first sequence number whose Stat says that
  -- there is no such file.
  unfoldable pub free_seq : ℕ → String → ℕ → Disk → Option ℕ × Disk
  free_seq zero date seq d = (none, d)
  free_seq (suc fuel) date seq d =
      let later = free_seq fuel date (suc seq) (called d) in
      if not (os.stat_fails d.calls) && not (is_file (rotated date seq) d.others)
      then (some seq, called d)
      else later

  -- os.Rename of `job.log`
  unfoldable pub rename : FileName → Disk → Disk
  rename name d =
      if os.renames d.calls
      then elim d.job_log [
        | none ↦ called d
        | some f ↦ record (called d) { job_log = none; others = d.others ++ (name, f) ∷ [] }
      ]
      else called d

  unfoldable pub reopened : String → Option ℕ × Disk → Outcome × Disk
  unfolding rename open_current_file_locked
  reopened date (none, d) = (hung, d)
  reopened date (some seq, d) = open_current_file_locked (rename (rotated date seq) d)

  -- rotateFileLocked; whether the file could be renamed or not, `job.log` is opened again.
  unfoldable pub rotate_file_locked : ℕ → Disk → Outcome × Disk
  unfolding free_seq reopened
  rotate_file_locked fuel d =
      let date = os.day d.calls in
      reopened date (free_seq fuel date 1 (record d { opened = false }))

  -- The Write of writeBatch; one on a closed file fails.
  unfoldable pub write_line : JobLog → ℕ → Disk → Outcome × Disk
  write_line e n d =
      if d.opened
      then elim (os.write_fails d.calls) [
        | none ↦ (
          done,
          record (called d) {
            job_log = some (content d.job_log ++ line e n ∷ []);
            current_size = d.current_size + n;
          },
        )
        | some k ↦ (
          failed,
          record (called d) {
            job_log = some (content d.job_log ++ torn e (if ltb k n then k else n - 1) ∷ []);
          },
        )
      ]
      else (failed, d)

  -- The check whether the file has room for `n` more bytes.
  unfoldable pub make_room : ℕ → ℕ → Disk → Outcome × Disk
  unfolding rotate_file_locked
  make_room fuel n d =
      if ltb d.max_size_bytes (d.current_size + n) then rotate_file_locked fuel d else (done, d)

  module _ (json_size : JobLog → Option ℕ) (fuel : ℕ) where
    -- One round of the loop of writeBatch.
    unfoldable pub write_entry : JobLog → Disk → Outcome × Disk
    unfolding make_room write_line
    write_entry e d = elim (json_size e) [
      | none ↦ (done, d)
      | some n ↦ if_done (make_room fuel (suc n) d) (write_line e (suc n))
    ]

    -- writeBatch
    unfoldable pub write_batch : List JobLog → Disk → Outcome × Disk
    unfolding write_entry
    write_batch [] d = (done, d)
    write_batch (e ∷ r) d = if_done (write_entry e d) (write_batch r)

    -- The loop of StopLogStorage over the batches left in the queue; errors are ignored.
    unfoldable pub drain : List (List JobLog) → Disk → Disk
    unfolding write_batch
    drain [] d = d
    drain (b ∷ r) d = drain r (write_batch b d).1
