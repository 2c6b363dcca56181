-- ===== src/Logger/Logged.antt =====
-- From AddLog to the files: what stands in the files when the goroutines interleave.
use go_flash_job.Base.{ℕ, suc, ◌+◌, ◌≤◌, ◌≡◌, Bool, true, Option, some, List, [], ◌∷◌, ◌++◌, length}
use go_flash_job.Model.{JobLog}
use go_flash_job.Logger.Disk.{FileName, File, Os, Disk, content}
use go_flash_job.Logger.Lines.{entries, archived, log_of, all_encodable}
use go_flash_job.Logger.Whole.{IsWorking, IsReady}
use go_flash_job.Logger.Flow.{System, Left}
use go_flash_job.Logger.Bounds.{count_all}

-- The logs of some batches, in order.
abbrev pub flat : List (List JobLog) → List JobLog
flat [] = []
flat (b ∷ r) = b ++ flat r

abbrev any : JobLog → Bool
any e = true

rest_of : List JobLog → List JobLog
rest_of [] = []
rest_of (x ∷ l) = l

module _ (os : Os) (works : IsWorking os) (json_size : JobLog → Option ℕ) (fuel max : ℕ)
    (fits : (e : JobLog) (n : ℕ) → json_size e ≡ some n → suc n ≤ max) (d : Disk) where
  -- All the files there have ever been hold what the directory held and the encodable logs of the
  -- batches; the directory has some of them.
  abbrev pub IsHistory : System → Type 0
  IsHistory s =
      (ever : List (FileName × File)) × Left s.disk.others ever
      × (archived ever ++ entries (content s.disk.job_log)
          ≡ log_of d ++ all_encodable json_size (flat s.handed))

  abbrev IsLogged : System → Type 0
  IsLogged s = IsReady os works max (length d.others + count_all any s.handed) s.disk × IsHistory s
