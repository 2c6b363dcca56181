-- ===== src/Tests/Logs.antt =====
-- The logger on concrete logs and files.
use Prim.Native.String.{String}
use go_flash_job.Base.{
  ℕ, ◌+◌, ◌*◌, ◌≤◌, ◌<◌, ◌≡◌, refl, ◌≢◌, ◌⊎◌, Bool, true, false, not, Option, none, some, List, [],
  ◌∷◌, ◌++◌, arith, ltb, if◌then◌else◌, length, pos, ◌-ℤ◌, count,
}
use go_flash_job.Model.{JobLog, ExecutionLog}
use go_flash_job.Logger.{
  batch_size, flush_queue_size, flush_workers, new_buffer, flush_locked, add_log, take_batch,
}
use go_flash_job.Logger.Disk.{
  rotated, line, File, opens, Os, Disk, done, hung, rotate_file_locked, write_batch, write_line,
}
use go_flash_job.Logger.Lines.{is_torn, log_of, all_encodable}
use go_flash_job.Logger.Append.{write_batch-appends}
use go_flash_job.Logger.Free.{
  IsFirstFree, fresh, rotate_file_locked-rotates, rotate_file_locked-hangs,
}
use go_flash_job.Logger.Whole.{IsWorking, IsOpen}
use go_flash_job.Logger.Flow.{
  System, started, written, adds, ticks, takes, writes, Reachable, here, next,
}
use go_flash_job.Logger.Bounds.{
  count_all, AreBatches, waiting, Reachable-conserved, Reachable-bounded,
}
use go_flash_job.Logger.Clean.{
  DirEntry, is_rotated_log, file_infos, sort_by_time, delete_expired, clean_expired_logs,
}
use go_flash_job.Logger.Expired.{keep, is_expired, clean_expired_logs-exact}
use go_flash_job.Logger.Message.{marshal_log, receive}
use go_flash_job.Logger.Receive.{receive-marshal_log}

abbrev today : String
today = "2026-04-27"

abbrev log_named : String → JobLog
log_named id = record {
  id = pos 0;
  job_id = id;
  name = "crawl";
  callback_url = "http://crawler:8000/run";
  status = pos 0;
  cost_ms = pos 12;
  retry = pos 0;
  error_msg = "";
  created_at = pos 150;
}

abbrev log_a : JobLog
log_a = log_named "a"

abbrev log_b : JobLog
log_b = log_named "b"

-- Each line has 10 bytes with its newline.
abbrev nine_bytes : JobLog → Option ℕ
nine_bytes e = some 9

abbrev working_os : Os
working_os = record {
  day = λ n. today;
  stat_fails = λ n. false;
  renames = λ n. true;
  opening = λ n. opens;
  write_fails = λ n. none;
}

abbrev is_working : IsWorking working_os
is_working = record {
  stats = λ n. refl;
  moves = λ n. refl;
  opens_all = λ n. refl;
  writes = λ n. refl;
}

-- The disk is full from the third call on.
abbrev full_os : Os
full_os = record working_os { write_fails = λ n. if ltb 2 n then some 4 else none }

-- No file of the directory can be looked at.
abbrev denied_os : Os
denied_os = record working_os { stat_fails = λ n. true }

-- Files of up to 25 bytes; one line stands in `job.log`, and one file has been rotated today.
abbrev old_file : File
old_file = line log_b 10 ∷ []

abbrev disk : Disk
disk = record {
  job_log = some (line log_a 10 ∷ []);
  others = (rotated today 1, old_file) ∷ [];
  opened = true;
  current_size = 10;
  max_size_bytes = 25;
  calls = 0;
}

abbrev is_open : IsOpen disk
is_open = record {
  file = line log_a 10 ∷ [];
  is_log = refl;
  is_opened = refl;
  is_size = refl;
  is_whole = refl;
}

abbrev two_logs : List JobLog
two_logs = log_a ∷ log_b ∷ []

-- The second line does not fit any more, and the third write fails.
write_batch-appends_example :
    let w = write_batch full_os nine_bytes 3 (log_b ∷ log_a ∷ log_b ∷ []) disk in
    ((first : List JobLog) × (rest : List JobLog) × (log_b ∷ log_a ∷ log_b ∷ [] ≡ first ++ rest)
      × ((log_of w.1 ≡ log_of disk ++ all_encodable nine_bytes first)
          ⊎ ((is_torn disk ≡ true)
              × ((x : JobLog) × (more : List JobLog) × (all_encodable nine_bytes first ≡ x ∷ more)
                  × (log_of w.1 ≡ log_of disk ++ more))))
      × ((w.0 ≢ done) ⊎ (rest ≡ [])))
    × ((e : JobLog) (n : ℕ)
        → is_torn disk ≡ true
        → (write_line full_os e n disk).0 ≡ done
        → log_of (write_line full_os e n disk).1 ≡ log_of disk)
write_batch-appends_example =
    write_batch-appends full_os nine_bytes 3 (log_b ∷ log_a ∷ log_b ∷ []) disk

rotate_file_locked-rotates_example :
    (found : ℕ) × IsFirstFree today 1 disk.others found
    × (n : ℕ) × (rotate_file_locked working_os 2 disk
        ≡ (done, fresh (rotated today found) (line log_a 10 ∷ []) n disk))
rotate_file_locked-rotates_example =
    rotate_file_locked-rotates working_os (λ n. refl) (λ n. refl) (λ n. refl) 2 disk
      (line log_a 10 ∷ []) refl (omega arith)

rotate_file_locked-hangs_example : (rotate_file_locked denied_os 1000 disk).0 ≡ hung
rotate_file_locked-hangs_example = rotate_file_locked-hangs denied_os (λ n. refl) 1000 disk

-- Two logs are added, flushed, taken by a worker and written.
abbrev flushed : System
flushed = record (started disk) {
  log = record { buffer = []; flush_queue = two_logs ∷ [] };
  added = log_b ∷ log_a ∷ [];
}

abbrev finished : System
finished =
    written working_os nine_bytes 9 (record flushed { log = new_buffer; held = two_logs ∷ [] })
      two_logs []

two_logs_run : Reachable working_os nine_bytes 9 (started disk) finished
unfolding add_log flush_locked take_batch
two_logs_run =
    next
      (next (next (next (next here (adds log_a)) (adds log_b)) ticks)
        (takes two_logs new_buffer (omega arith) refl))
      (writes [] [] two_logs refl)

-- The cleaner has deleted all rotated files in the end.
abbrev emptied : System
emptied = record finished { disk = record finished.disk { others = [] } }

Reachable-conserved_example :
    count (λ e. true) finished.added
    ≡ waiting (λ e. true) finished
      + count_all (λ e. true) finished.handed
      + count (λ e. true) finished.dropped
Reachable-conserved_example =
    Reachable-conserved (λ e. true) working_os nine_bytes 9 disk two_logs_run

Reachable-bounded_example :
    (length finished.log.buffer < batch_size)
    × (length finished.log.flush_queue ≤ flush_queue_size)
    × (length finished.held ≤ flush_workers)
    × AreBatches finished.log.flush_queue
    × AreBatches finished.held
    × ((p : JobLog → Bool) → waiting p finished ≤ 25899)
Reachable-bounded_example = Reachable-bounded working_os nine_bytes 9 disk two_logs_run

-- The current log, an old rotated log, a young one and a foreign file.
abbrev directory : List DirEntry
directory =
    record { name = "job.log"; is_dir = false; mod_time = some (pos 0) }
    ∷ record { name = "job-2026-04-01-1.log"; is_dir = false; mod_time = some (pos 5) }
    ∷ record { name = "job-2026-04-27-1.log"; is_dir = false; mod_time = some (pos 700000) }
    ∷ record { name = "notes.txt"; is_dir = false; mod_time = some (pos 0) }
    ∷ []

clean_expired_logs-exact_example :
    let deadline = pos 800000 -ℤ pos (7 * 86400) in
    clean_expired_logs (λ name. true) (pos 800000) 7 directory ≡ (
      count (is_expired (λ name. true) deadline) directory,
      keep (λ e. not (is_expired (λ name. true) deadline e)) directory,
    )
clean_expired_logs-exact_example =
    clean_expired_logs-exact (λ name. true) (pos 800000) 7 directory
      (refl, (refl, (refl, (refl, tt))))

cleaned : (clean_expired_logs (λ name. true) (pos 800000) 7 directory).0 ≡ 1
unfolding clean_expired_logs delete_expired sort_by_time file_infos is_rotated_log ◌-ℤ◌
cleaned = refl

abbrev sent_log : ExecutionLog
sent_log = record {
  job_id = "a";
  name = "crawl";
  callback_url = "http://crawler:8000/run";
  status = pos 1;
  cost_ms = pos 12;
  retry = pos 2;
  timestamp = pos 150;
  error_msg = "callback returned an error status";
}

receive-marshal_log_example :
    receive (some (marshal_log sent_log)) new_buffer
    ≡ add_log
        (record log_a {
          status = pos 1;
          retry = pos 2;
          error_msg = "callback returned an error status";
        })
        new_buffer
receive-marshal_log_example = receive-marshal_log sent_log new_buffer
