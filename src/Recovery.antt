-- ===== src/Recovery.antt =====
-- scheduler/internal/core/fsm.go: recovering tasks at the start, watching for stuck ones, and
-- clearing the state of finished ones.
pub mod Clean
pub mod Revive
use Prim.Native.String.{String, []}
use go_flash_job.Base.{
  [], ℕ, suc, Bool, true, false, ◌&&◌, ◌||◌, Option, none, some, List, ◌∷◌, ◌==◌, if◌then◌else◌,
  length, ℤ, pos, ◌-ℤ◌, ltb_ℤ,
}
use go_flash_job.Model.{
  TaskStatus, pending, dispatched, running, priority_low, default_max_retry, Task,
}
use go_flash_job.Redis.{
  global_queue, active_tasks, terminal_tasks, HKey, task_state, task_detail, Value, Redis,
}
use go_flash_job.Redis.World.{
  ◌>>=◌, Res, ok, err, M, ret, ◌>>◌, attempt, ignore_error, write, read, current_time,
}
use go_flash_job.Status.{status_eq, as_status, as_int, as_plain}
use go_flash_job.Detail.{get_task_detail}
use go_flash_job.Fsm.{save_state}

abbrev pub stale_threshold : ℤ
stale_threshold = pos 120

abbrev pub in_flight : TaskStatus → Bool
in_flight s = status_eq s dispatched || status_eq s running

-- The task that is rebuilt from its state hash when its detail is lost.
unfoldable pub rebuilt : String → (String → Option Value) → Task
rebuilt id fields = record {
  id = id;
  name = as_plain (fields "name");
  callback_url = as_plain (fields "callback_url");
  trigger_time = as_int (fields "trigger_time");
  priority = priority_low;
  retry_count = pos 0;
  max_retry = default_max_retry;
  timeout = pos 30;
  payload = "";
  enqueue_at = pos 0;
}

unfoldable pub detail_or_rebuilt : String → (String → Option Value) → Res Task → Task
unfolding rebuilt
detail_or_rebuilt id fields (ok t) = t
detail_or_rebuilt id fields (err e) = rebuilt id fields

-- `now` in place of the task's time, when `time` is over.
unfoldable pub not_before : ℤ → ℤ → Task → Task
not_before now time t = if ltb_ℤ time now then record t { trigger_time = now } else t

abbrev pub members : List (String × ℤ) → List String
members [] = []
members ((m, s) ∷ r) = m ∷ members r

module _ (R : Redis) where
  -- HGetAll of the state hash.
  abbrev pub state_hash : R.Db → String → String → Option Value
  state_hash d id = R.hget d (HKey.task_state id)

  -- The end of both loops' bodies: back to the global queue as PENDING; whether it was counted.
  unfoldable pub revive_queued : Task → Res (Unit {0}) → M R Bool
  unfolding save_state
  revive_queued t (err e) = ret false
  revive_queued t (ok u) = ignore_error (save_state R t pending) >> ret true

  unfoldable pub revive : String → Task → M R Bool
  unfolding revive_queued
  revive id t = attempt (write (R.zadd global_queue t.trigger_time id)) >>= revive_queued t

  -- The loop body of RecoverStaleTasks: once the detail is read, once the state is, and the whole.
  unfoldable pub recover_detailed : ℤ → String → (String → Option Value) → Res Task → M R Bool
  unfolding revive detail_or_rebuilt not_before
  recover_detailed now id fields detail =
      revive id
        (not_before now (as_int (fields "trigger_time")) (detail_or_rebuilt id fields detail))

  unfoldable pub recover_got : ℤ → String → Res (String → Option Value) → M R Bool
  unfolding recover_detailed get_task_detail ◌-ℤ◌
  recover_got now id (err e) = ret false
  recover_got now id (ok fields) =
      if in_flight (as_status (fields "status"))
        && ltb_ℤ (now -ℤ as_int (fields "updated_at")) stale_threshold
      then ret false
      else attempt (get_task_detail R id) >>= recover_detailed now id fields

  unfoldable pub recover_one : ℤ → String → M R Bool
  unfolding recover_got
  recover_one now id = attempt (read (λ d. state_hash d id)) >>= recover_got now id

  -- The loop body of MonitorStaleStates, in the same way.
  unfoldable pub monitor_detailed : ℤ → String → (String → Option Value) → Res Task → M R Bool
  unfolding revive detail_or_rebuilt not_before
  monitor_detailed now id fields detail =
      let t = detail_or_rebuilt id fields detail in revive id (not_before now t.trigger_time t)

  unfoldable pub monitor_got : ℤ → String → Res (String → Option Value) → M R Bool
  unfolding monitor_detailed get_task_detail
  monitor_got now id (err e) = ret false
  monitor_got now id (ok fields) =
      if in_flight (as_status (fields "status"))
      then attempt (get_task_detail R id) >>= monitor_detailed now id fields
      else ret false

  unfoldable pub monitor_one : ℤ → String → M R Bool
  unfolding monitor_got
  monitor_one now id = attempt (read (λ d. state_hash d id)) >>= monitor_got now id

  -- The loops: how many tasks the body counted.
  unfoldable pub count_revived : (String → M R Bool) → List String → M R ℕ
  count_revived body [] = ret 0
  count_revived body (id ∷ r) = do
    counted ← body id
    n ← count_revived body r
    ret (if counted then suc n else n)

  -- RecoverStaleTasks
  unfoldable pub recover_stale_tasks : M R ℕ
  unfolding count_revived recover_one
  recover_stale_tasks = do
    ids ← read (λ d. R.zrange_limit 10000 d active_tasks none)
    now ← current_time
    count_revived (recover_one now) (members ids)

  -- MonitorStaleStates
  unfoldable pub monitor_stale_states : ℤ → M R ℕ
  unfolding count_revived monitor_one ◌-ℤ◌
  monitor_stale_states stale_timeout = do
    now ← current_time
    ids ← read (λ d. R.zrange_limit 1000 d active_tasks (some (now -ℤ stale_timeout)))
    count_revived (monitor_one now) (members ids)

  -- The pipeline of CleanTerminalStates.
  unfoldable pub clear_states : List String → R.Db → R.Db
  clear_states [] d = d
  clear_states (id ∷ r) d =
      clear_states r
        (R.zrem terminal_tasks id (R.del (HKey.task_detail id) (R.del (HKey.task_state id) d)))

  -- CleanTerminalStates
  unfoldable pub clean_terminal_states : ℤ → M R ℕ
  unfolding clear_states
  clean_terminal_states before_time = do
    ids ← read (λ d. R.zrange_limit 1000 d terminal_tasks (some before_time))
    if length ids == 0 then ret 0 else write (clear_states (members ids)) >> ret (length ids)
