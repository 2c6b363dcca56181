-- ===== src/Service.antt =====
-- scheduler/internal/service/job_service.go: submitting jobs.
pub mod Submit
pub mod Batch
use Prim.Native.String.{String, []}
use text.Mathlib.Text.{◌==◌ as str_eq}
use go_flash_job.Base.{
  [], ℕ, suc, Bool, not, ◌||◌, Option, none, some, List, ◌∷◌, ◌==◌, if◌then◌else◌, length, ℤ, pos,
  ◌+ℤ◌, ltb_ℤ, leb_ℤ, ◌==ℤ◌,
}
use go_flash_job.Model.{pending, priority_low, default_max_retry, Task, message}
use go_flash_job.Redis.{global_queue, active_tasks, HKey, task_state, task_detail, json, Redis}
use go_flash_job.Redis.World.{◌>>=◌, M, ret, fail_with, ◌>>◌, write, current_time}
use go_flash_job.Status.{hset_all, state_fields}

-- The checks that SubmitJob starts with.
unfoldable pub refused : Task → Option String
refused t =
    if str_eq t.id ""
    then some "job id is required"
    else if str_eq t.callback_url ""
    then some "callback_url is required"
    else none

-- The times below which a trigger time is an offset from now.
abbrev pub offset_limit : ℤ
offset_limit = pos 1000000000

unfoldable pub trigger_at : ℤ → ℤ → ℤ
unfolding ◌+ℤ◌
trigger_at now s =
    if leb_ℤ s (pos 0) then now +ℤ pos 5 else if ltb_ℤ s offset_limit then now +ℤ s else s

-- The defaults of SubmitJob and BatchSubmitJobs.
unfoldable pub with_defaults : ℤ → Task → Task
unfolding trigger_at
with_defaults now t = record t {
  priority = if str_eq t.priority "" then priority_low else t.priority;
  max_retry = if t.max_retry ==ℤ pos 0 then default_max_retry else t.max_retry;
  timeout = if t.timeout ==ℤ pos 0 then pos 30 else t.timeout;
  trigger_time = trigger_at now t.trigger_time;
  enqueue_at = now;
}

-- The test of BatchSubmitJobs.
abbrev pub is_valid : Task → Bool
is_valid t = not (str_eq t.id "" || str_eq t.callback_url "")

module _ (R : Redis) where
  -- The pipeline's commands for one task with its defaults.
  unfoldable pub store_task : ℤ → Task → R.Db → R.Db
  store_task now t d =
      let queued = R.zadd global_queue t.trigger_time t.id d in
      let detailed = R.hset (HKey.task_detail t.id) "data" (json t) queued in
      let active = R.zadd active_tasks now t.id detailed in
      hset_all R (HKey.task_state t.id) (state_fields R t pending now) active

  -- SubmitJob
  unfoldable pub submit_job : Task → M R (Unit {0})
  unfolding refused with_defaults store_task
  submit_job t = do
    now ← current_time
    elim (refused t) [
      | some e ↦ fail_with (message e)
      | none ↦ write (store_task now (with_defaults now t))
    ]

  -- The loop of BatchSubmitJobs: the commands and their number.
  unfoldable pub store_valid : ℤ → List Task → R.Db → R.Db
  unfolding with_defaults store_task
  store_valid now [] d = d
  store_valid now (t ∷ r) d =
      let d' = store_task now (with_defaults now t) d in
      store_valid now r (if is_valid t then d' else d)

  abbrev pub valid_count : List Task → ℕ
  valid_count [] = 0
  valid_count (t ∷ r) = if is_valid t then suc (valid_count r) else valid_count r

  -- BatchSubmitJobs
  unfoldable pub batch_submit_jobs : List Task → M R ℕ
  unfolding store_valid
  batch_submit_jobs ts = do
    now ← current_time
    if length ts == 0
        then ret 0
        else if valid_count ts == 0
        then fail_with (message "no valid tasks")
        else write (store_valid now ts) >> ret (valid_count ts)
