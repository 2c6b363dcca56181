-- ===== src/Logger/Flow.antt =====
-- The goroutines of the logger as steps on one state: who adds a log, the ticker, the two workers,
-- the cleaner, and the end by StopLogStorage. A batch is written in one step, so the cleaner deletes
-- files between two batches.
use go_flash_job.Base.{ℕ, ◌<◌, ◌≡◌, Option, some, List, [], ◌∷◌, ◌++◌, length}
use go_flash_job.Model.{JobLog}
use go_flash_job.Logger.{LogBuffer, add_log, flush_locked, take_batch, new_buffer, flush_workers}
use go_flash_job.Logger.Disk.{FileName, File, Os, Disk, write_batch, drain}

-- The buffer and the disk, the batches that the workers hold, and the history: the logs that were
-- added, the batches handed to writeBatch in their order, and the logs that were dropped.
pub record System : Type 0 where
  pub log : LogBuffer
  pub disk : Disk
  pub held : List (List JobLog)
  pub added : List JobLog
  pub handed : List (List JobLog)
  pub dropped : List JobLog

abbrev pub started : Disk → System
started d = record { log = new_buffer; disk = d; held = []; added = []; handed = []; dropped = [] }

abbrev pub buffered : System → LogBuffer × List JobLog → System
buffered s (b, lost) = record s { log = b; dropped = s.dropped ++ lost }

-- A list without some of its elements.
pub data Left {A : Type 0} : List A → List A → Type 0 where
  all_gone : Left [] []
  kept : {x : A} {l m : List A} → Left l m → Left (x ∷ l) (x ∷ m)
  gone : {x : A} {l m : List A} → Left l m → Left l (x ∷ m)

module _ (os : Os) (json_size : JobLog → Option ℕ) (fuel : ℕ) where
  abbrev pub written : System → List JobLog → List (List JobLog) → System
  written s batch rest = record s {
    disk = (write_batch os json_size fuel batch s.disk).1;
    held = rest;
    handed = s.handed ++ batch ∷ [];
  }

  -- AddLog, the ticker's flush, a worker that takes a batch, one that writes the batch it holds,
  -- and a round of startAutoCleaner, which deletes any files, but never job.log.
  pub data Step (s : System) : System → Type 0 where
    adds : (e : JobLog) → Step s (buffered (record s { added = e ∷ s.added }) (add_log e s.log))
    ticks : Step s (buffered s (flush_locked s.log))
    takes :
        (batch : List JobLog) (b : LogBuffer)
        → length s.held < flush_workers
        → take_batch s.log ≡ some (batch, b)
        → Step s (record s { log = b; held = batch ∷ s.held })
    writes :
        (before after : List (List JobLog)) (batch : List JobLog)
        → s.held ≡ before ++ batch ∷ after
        → Step s (written s batch (before ++ after))
    cleans :
        (files : List (FileName × File))
        → Left files s.disk.others
        → Step s (record s { disk = record s.disk { others = files } })

  pub data Reachable (s : System) : System → Type 0 where
    here : Reachable s s
    next : {t u : System} → Reachable s t → Step t u → Reachable s u

  -- The end of StopLogStorage, once the workers are gone.
  unfoldable pub close_storage : System → System
  unfolding drain
  close_storage s = record s {
    log = record s.log { flush_queue = [] };
    disk = drain os json_size fuel s.log.flush_queue s.disk;
    handed = s.handed ++ s.log.flush_queue;
  }
