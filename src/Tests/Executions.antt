-- ===== src/Tests/Executions.antt =====
-- Runs of the executor.
use go_flash_job.Base.{pos, [], ◌∷◌, ◌≡◌, refl, some, none, ap, arith}
use go_flash_job.Model.{TaskCommand, retry, dead}
use go_flash_job.Redis.{json, status, global_queue, dead_queue, active_tasks, terminal_tasks}
use go_flash_job.Redis.World.{World, ok, up, down, Res}
use go_flash_job.Redis.Memory.{memory, empty_db}
use go_flash_job.Status.{status_field}
use go_flash_job.Detail.{detail_field}
use go_flash_job.Executor.{
  Answer, acked, requeued, Handled, Response, code, execute_http_callback, handle_task, count_retry,
}
use go_flash_job.Executor.Once.{handle_task-once}
use go_flash_job.Executor.Failure.{handle_task-retries, handle_task-dies, handle_task-loses_retry}
use go_flash_job.Tests.Samples.{command_a, worn_command, at, task_a}

abbrev answers : TaskCommand → Response
answers c = code 200

abbrev refuses : TaskCommand → Response
refuses c = code 503

abbrev run : (TaskCommand → Response) → TaskCommand → World memory → Res Handled × World memory
run http c w = handle_task memory http 0 0 (pos 12) c w

abbrev start_world : World memory
start_world = at empty_db (up ∷ up ∷ up ∷ up ∷ up ∷ up ∷ [])

handle_task-retries_example :
    let r = run refuses command_a start_world in
    (r.0 ≡ ok (record { answer = acked; called = some command_a }))
    × (status_field memory r.1.db "a" ≡ some (status retry))
    × (memory.zscore r.1.db global_queue "a" ≡ some (pos 151))
    × (detail_field memory r.1.db "a"
        ≡ some (
            json
              (record task_a { retry_count = pos 1; trigger_time = pos 151; enqueue_at = pos 0 })))
unfolding memory empty_db execute_http_callback count_retry
handle_task-retries_example =
    handle_task-retries memory refuses 0 0 (pos 12) command_a start_world refl refl refl
      "callback returned an error status" refl 0 [] refl refl (omega arith) refl

handle_task-dies_example :
    let r = run refuses worn_command start_world in
    (r.0 ≡ ok (record { answer = acked; called = some worn_command }))
    × (status_field memory r.1.db "a" ≡ some (status dead))
    × (memory.zscore r.1.db dead_queue "a" ≡ some (pos 150))
    × (memory.zscore r.1.db active_tasks "a" ≡ none)
    × (memory.zscore r.1.db terminal_tasks "a" ≡ some (pos 150))
unfolding memory empty_db execute_http_callback count_retry
handle_task-dies_example =
    handle_task-dies memory refuses 0 0 (pos 12) worn_command start_world refl refl refl
      "callback returned an error status" refl [] refl refl

abbrev full_queue : World memory
full_queue = at empty_db (up ∷ up ∷ up ∷ down ∷ up ∷ [])

handle_task-loses_retry_example :
    let first = run refuses command_a full_queue in
    (first.0 ≡ ok (record { answer = requeued; called = some command_a }))
    × (run refuses command_a (record first.1 { links = up ∷ [] })
        ≡ (ok (record { answer = acked; called = none }), record first.1 { links = [] }))
    × (memory.zscore first.1.db global_queue "a" ≡ memory.zscore full_queue.db global_queue "a")
unfolding memory empty_db execute_http_callback count_retry handle_task
handle_task-loses_retry_example =
    handle_task-loses_retry memory refuses 0 0 (pos 12) command_a full_queue refl refl refl
      "callback returned an error status" refl (up ∷ []) []
      (record (run refuses command_a full_queue).1 { links = up ∷ [] }) refl refl refl refl refl

abbrev after_failure : World memory
after_failure = (run refuses command_a start_world).1

abbrev other_command : TaskCommand
other_command = record command_a { id = "b" }

-- Another command has been delivered in the meantime.
abbrev after_others : World memory
after_others =
    (run refuses other_command (record after_failure { now = pos 160; links = up ∷ up ∷ [] })).1

handle_task-once_example :
    (b : Answer) × (w₃ : World memory) × (run refuses command_a after_others
      ≡ (ok (record { answer = b; called = none }), w₃))
    × (w₃.db ≡ after_others.db)
    × (w₃.kafka ≡ after_others.kafka)
unfolding memory empty_db execute_http_callback count_retry handle_task
handle_task-once_example =
    handle_task-once memory refuses 0 0 (pos 12) command_a command_a start_world after_failure
      after_others acked ((other_command, pos 160, up ∷ up ∷ []) ∷ [])
      (ap (λ o. (o, after_failure))
        (handle_task-retries memory refuses 0 0 (pos 12) command_a start_world refl refl refl
          "callback returned an error status" refl 0 [] refl refl (omega arith) refl).0)
      refl refl
