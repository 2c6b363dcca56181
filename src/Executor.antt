-- ===== src/Executor.antt =====
-- executor/internal/client/consumer.go: what an executor does with a message. The HTTP client of
-- the callback is a parameter.
pub mod Marks
pub mod Once
pub mod Outcome
pub mod Failure
use Prim.Native.String.{String, []}
use text.Mathlib.Text.{◌==◌ as str_eq}
use go_flash_job.Base.{
  [], ℕ, Bool, true, false, not, ◌&&◌, Option, none, some, ◌∷◌, ltb, leb, if◌then◌else◌, set, ℤ,
  pos, ◌+ℤ◌, ltb_ℤ,
}
use go_flash_job.Model.{
  TaskStatus, running, success, retry, dead, priority_low, default_max_retry, Task, TaskCommand,
  message,
}
use go_flash_job.Redis.{
  global_queue, HKey, task_state, SKey, exec_dedupe, Value, int, status, Redis,
}
use go_flash_job.Redis.World.{
  ◌>>◌, ◌>>=◌, Res, ok, err, M, ret, fail_with, attempt, ignore_error, call, write, current_time,
  send_kafka,
}
use go_flash_job.Status.{hset_all, index_task}
use go_flash_job.Detail.{save_task_detail}
use go_flash_job.Fsm.{save_dead_task}
use go_flash_job.Backoff.{backoff, after}

-- Ack, or Nack with requeue.
pub data Answer : Type 0 where
  acked requeued : Answer

-- What handleTask does with the message, and the command whose callback it called.
pub record Handled : Type 0 where
  pub answer : Answer
  pub called : Option TaskCommand

-- What http.Client.Do gives: a status code, or the text of an error.
pub data Response : Type 0 where
  code : ℕ → Response
  failed : String → Response

abbrev pub response_error : Response → Option String
response_error (failed e) = some e
response_error (code n) =
    if leb 200 n && ltb n 300 then none else some "callback returned an error status"

-- executeHTTPCallback: no error is a success.
unfoldable pub execute_http_callback : (TaskCommand → Response) → TaskCommand → Option String
execute_http_callback http c =
    if str_eq c.callback_url "" then some "callback_url is empty" else response_error (http c)

-- parseTaskCommand, over what json.Unmarshal makes of the body.
unfoldable pub parse_task_command : (String → Option TaskCommand) → String → TaskCommand
parse_task_command unmarshal body =
    let by_id : TaskCommand = record {
      id = body;
      name = "";
      callback_url = "";
      trigger_time = pos 0;
      priority = priority_low;
      retry_count = pos 0;
      max_retry = default_max_retry;
      timeout = pos 30;
      payload = "";
    } in
    elim (unmarshal body) [ none ↦ by_id | some c ↦ if str_eq c.id "" then by_id else c ]

-- The task that handleTask writes back for a retry.
unfoldable pub retry_task : TaskCommand → ℤ → Task
retry_task c retry_at = record {
  id = c.id;
  name = c.name;
  callback_url = c.callback_url;
  trigger_time = retry_at;
  priority = c.priority;
  retry_count = c.retry_count;
  max_retry = c.max_retry;
  timeout = c.timeout;
  payload = c.payload;
  enqueue_at = pos 0;
}

-- The task of handleTaskDead.
unfoldable pub dead_task : TaskCommand → Task
dead_task c = record {
  id = c.id;
  name = c.name;
  callback_url = c.callback_url;
  trigger_time = pos 0;
  priority = "";
  retry_count = c.retry_count;
  max_retry = c.max_retry;
  timeout = pos 0;
  payload = "";
  enqueue_at = pos 0;
}

unfoldable pub count_retry : TaskCommand → TaskCommand
unfolding ◌+ℤ◌
count_retry c = record c { retry_count = c.retry_count +ℤ pos 1 }

-- dedupeTTL, in seconds.
abbrev pub dedupe_ttl : ℤ
dedupe_ttl = pos 86400

-- A key with such an expiry has not expired.
abbrev pub is_set : ℤ → Option ℤ → Bool
is_set now none = false
is_set now (some e) = ltb_ℤ now e

module _ (R : Redis) where
  -- dedupeKey
  abbrev pub dedupe_key : TaskCommand → SKey
  dedupe_key c = exec_dedupe c.id c.trigger_time

  -- SETNX with an expiry, in seconds: whether the key was created.
  unfoldable pub set_if_absent : ℤ → SKey → ℤ → R.Db → Bool × R.Db
  unfolding ◌+ℤ◌
  set_if_absent now k ttl d =
      if is_set now (R.sget d k) then (false, d) else (true, R.set k (now +ℤ ttl) d)

  -- checkAndMarkIdempotency
  unfoldable pub check_and_mark_idempotency : TaskCommand → M R Bool
  unfolding set_if_absent
  check_and_mark_idempotency c = do
    now ← current_time
    created ← call (set_if_absent now (dedupe_key c) dedupe_ttl)
    ret (not created)

  -- updateTaskState
  unfoldable pub update_task_state : String → TaskStatus → M R (Unit {0})
  update_task_state id s = do
    now ← current_time
    if str_eq id ""
        then fail_with (message "empty task id")
        else write (λ d. index_task R id s now (
            hset_all R (HKey.task_state id)
              (("status", Value.status s) ∷ ("updated_at", int now) ∷ []) d))

  -- sendLogToKafka
  unfoldable pub send_log_to_kafka : TaskCommand → ℤ → ℤ → String → M R (Unit {0})
  send_log_to_kafka c s cost e = do
    now ← current_time
    send_kafka (record {
      job_id = c.id;
      name = c.name;
      callback_url = c.callback_url;
      status = s;
      cost_ms = cost;
      retry = c.retry_count;
      timestamp = now;
      error_msg = e;
    })

  -- handleTaskDead
  unfoldable pub handle_task_dead : TaskCommand → String → M R Answer
  unfolding dead_task update_task_state send_log_to_kafka save_dead_task
  handle_task_dead c e = do
    ignore_error (save_dead_task R (dead_task c) e)
    ignore_error (update_task_state c.id dead)
    ignore_error (send_log_to_kafka c (pos 2) (pos 0) e)
    ret acked

  -- handleTask, once the retry is in the global queue or could not be put there.
  unfoldable pub retry_queued : TaskCommand → ℤ → String → Res (Unit {0}) → M R Answer
  unfolding update_task_state send_log_to_kafka
  retry_queued c cost e (err x) = ret requeued
  retry_queued c cost e (ok _) = do
    ignore_error (update_task_state c.id retry)
    ignore_error (send_log_to_kafka c (pos 1) cost e)
    ret acked

  -- handleTask, after a failed callback that may be tried again: `c` counts the failure.
  unfoldable pub schedule_retry : TaskCommand → ℤ → ℤ → String → M R Answer
  unfolding retry_task save_task_detail retry_queued
  schedule_retry c retry_at cost e = do
    ignore_error (save_task_detail R (retry_task c retry_at))
    queued ← attempt (write (R.zadd global_queue retry_at c.id))
    retry_queued c cost e queued

  -- The end of handleTask, from the callback's result on. `frac` is the clock's part of a second in
  -- nanoseconds, `jitter` the random number, `cost` the measured time.
  unfoldable pub finish_task : ℕ → ℕ → ℤ → TaskCommand → Option String → M R Answer
  unfolding count_retry handle_task_dead schedule_retry update_task_state send_log_to_kafka after
      backoff
  finish_task frac jitter cost c none = do
    ignore_error (update_task_state c.id success)
    ignore_error (send_log_to_kafka c (pos 0) cost "")
    ret acked
  finish_task frac jitter cost c (some e) =
      let counted = count_retry c in
      if ltb_ℤ counted.max_retry counted.retry_count then handle_task_dead counted e else (do
        now ← current_time
        schedule_retry counted (after now frac (backoff counted.retry_count jitter)) cost e)

  -- handleTask, from the answer of the dedupe check on.
  unfoldable pub handle_checked :
      (TaskCommand → Response) → ℕ → ℕ → ℤ → TaskCommand → Res Bool → M R Handled
  unfolding update_task_state execute_http_callback finish_task
  handle_checked http frac jitter cost c (err x) = ret (record { answer = requeued; called = none })
  handle_checked http frac jitter cost c (ok true) = ret (record { answer = acked; called = none })
  handle_checked http frac jitter cost c (ok false) = do
    ignore_error (update_task_state c.id running)
    answer ← finish_task frac jitter cost c (execute_http_callback http c)
    ret (record { answer = answer; called = if str_eq c.callback_url "" then none else some c })

  -- handleTask
  unfoldable pub handle_task : (TaskCommand → Response) → ℕ → ℕ → ℤ → TaskCommand → M R Handled
  unfolding check_and_mark_idempotency handle_checked
  handle_task http frac jitter cost c = do
    duplicate ← attempt (check_and_mark_idempotency c)
    handle_checked http frac jitter cost c duplicate
