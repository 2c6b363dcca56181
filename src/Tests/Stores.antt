-- ===== src/Tests/Stores.antt =====
-- Runs of the scheduler's rounds, of the job service and of the recovery.
use go_flash_job.Base.{pos, [], ◌∷◌, ◌≡◌, ◌≢◌, refl, some, none, true, arith, List, count}
use go_flash_job.Model.{TaskStatus, running, trigger, retry}
use go_flash_job.Redis.{HKey, json, status, global_queue, pending_queue}
use go_flash_job.Redis.World.{up, down, lost, Res, ok, World}
use go_flash_job.Redis.Memory.{memory, empty_db}
use go_flash_job.Status.{set_status, status_field}
use go_flash_job.Detail.{detail_field}
use go_flash_job.Fsm.{Fsm, new_fsm, fire}
use go_flash_job.Processor.{P, push}
use go_flash_job.Lifecycle.{run_rounds, begins, requeues, monitors, cleans}
use go_flash_job.Lifecycle.Kept.{run_rounds-kept}
use go_flash_job.Status.Writes.{IsIndexed}
use go_flash_job.Scheduler.{fetch_round, new_ps, delayed, parse_pairs, fetch_expired, execute_task}
use go_flash_job.Scheduler.Queues.{Fetched, fetch_expired-Fetched}
use go_flash_job.Scheduler.Rounds.{IsQueued, AllQueues, fetch_round-IsQueued}
use go_flash_job.Scheduler.Stuck.{Happening, fetches, requeues, executes, all_happen, is_for}
use go_flash_job.Scheduler.Stuck.Forever.{all_happen-retry}
use go_flash_job.Scheduler.Recover.{is_queued}
use go_flash_job.Scheduler.Dispatch.{execute_task-republish}
use go_flash_job.Service.{submit_job, with_defaults, refused}
use go_flash_job.Recovery.{clean_terminal_states}
use go_flash_job.Recovery.Clean.{clean_terminal_states-submitted}
use go_flash_job.Fsm.Fire.{AllKeep}
use go_flash_job.Tests.Samples.{task_a, at, ready_db, retry_db, finished_db, queued_db, empty_p}

abbrev machine : Fsm memory
machine = new_fsm memory

fetch_expired-Fetched_example :
    Fetched memory
      (pos 151)
      queued_db
      (parse_pairs (fetch_expired memory (pos 151) queued_db).0)
      (fetch_expired memory (pos 151) queued_db).1
fetch_expired-Fetched_example = fetch_expired-Fetched memory (pos 151) queued_db

abbrev refused_run : Res P × World memory
refused_run = execute_task memory machine 0 0 empty_p task_a (at ready_db (up ∷ up ∷ down ∷ []))

execute_task-republish_example :
    let second =
      execute_task memory machine 0 0 empty_p (delayed (pos 150) 0 0 task_a) refused_run.1 in
    (refused_run.0 ≡ ok (push (delayed (pos 150) 0 0 task_a) empty_p))
    × (refused_run.1.mq ≡ [])
    × (second.0 ≡ ok empty_p)
    × (second.1.mq ≡ refused_run.1.mq)
unfolding memory empty_db set_status new_fsm
execute_task-republish_example =
    execute_task-republish memory machine 0 0 empty_p task_a (at ready_db (up ∷ up ∷ down ∷ [])) []
      refl refl refl refl 0 0 empty_p refused_run.1 refl

no_hooks : (s : TaskStatus) → AllKeep memory (machine.hooks s)
unfolding new_fsm
no_hooks s = tt

abbrev resubmitted : World memory
resubmitted = (submit_job memory task_a (at finished_db (up ∷ []))).1

clean_terminal_states-submitted_example :
    let w₁ = (clean_terminal_states memory (pos 95) resubmitted).1 in
    (memory.zscore w₁.db global_queue "a" ≡ some (with_defaults (pos 150) task_a).trigger_time)
    × (detail_field memory w₁.db "a" ≡ none)
    × ((fire memory machine trigger task_a w₁).0 ≢ ok tt)
unfolding memory empty_db set_status refused submit_job
clean_terminal_states-submitted_example =
    clean_terminal_states-submitted memory machine task_a (at finished_db (up ∷ [])) resubmitted []
      (pos 95) (pos 90) trigger no_hooks refl refl refl refl refl (omega arith)

no_queue_hooks : (s : TaskStatus) → AllQueues memory "a" (machine.hooks s)
unfolding new_fsm
no_queue_hooks s = tt

fetch_round-IsQueued_example :
    IsQueued memory "a" (fetch_round memory machine new_ps (at queued_db (lost ∷ up ∷ []))).1.db
unfolding memory empty_db queued_db
fetch_round-IsQueued_example =
    fetch_round-IsQueued memory "a" machine new_ps (at queued_db (lost ∷ up ∷ [])) no_queue_hooks
      refl

unfoldable stuck_db : memory.Db
unfolding memory empty_db
stuck_db =
    memory.hset (HKey.task_detail "a") "data" (json task_a)
      (set_status memory task_a running (pos 20) empty_db)

-- "a" is stuck in RUNNING and in the pending queue since 10.
abbrev stuck_pending_db : memory.Db
stuck_pending_db = memory.zadd pending_queue (pos 10) "a" stuck_db

run_rounds-kept_example :
    let r =
      run_rounds memory
        (begins ∷ cleans ∷ monitors ∷ requeues ∷ [])
        (at stuck_pending_db (up ∷ lost ∷ up ∷ down ∷ up ∷ up ∷ [])) in
    (is_queued memory r.1.db "a" ≡ true) × IsIndexed memory r.1.db "a"
unfolding memory empty_db stuck_db set_status
run_rounds-kept_example =
    run_rounds-kept memory (begins ∷ cleans ∷ monitors ∷ requeues ∷ [])
      (at stuck_pending_db (up ∷ lost ∷ up ∷ down ∷ up ∷ up ∷ [])) "a" refl (λ p. cc p)

-- "a" is due in the global queue and in RETRY; the replies of the first fetch are lost.
abbrev due_retry_db : memory.Db
due_retry_db =
    memory.zadd global_queue (pos 100) "a"
      (memory.hset (HKey.task_detail "a") "data" (json task_a) retry_db)

abbrev busy_day : List Happening
busy_day =
    fetches (pos 150) (lost ∷ [])
    ∷ requeues (pos 400) []
    ∷ fetches (pos 401) []
    ∷ executes (pos 402) (up ∷ down ∷ []) 0 0 empty_p task_a
    ∷ []

all_happen-retry_example :
    let w' = (all_happen memory machine busy_day (new_ps, at due_retry_db [])).1 in
    (status_field memory w'.db "a" ≡ some (status retry)) × (count (is_for "a") w'.mq ≡ 0)
unfolding memory empty_db set_status new_fsm
all_happen-retry_example =
    all_happen-retry memory machine "a" busy_day new_ps (at due_retry_db []) refl refl refl refl
