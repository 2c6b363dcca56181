-- ===== src/Scheduler.antt =====
-- scheduler/internal/core/scheduler.go: the rounds of the scheduler's loops. The select on the
-- context and the ticker is what starts a round.
pub mod Queues
pub mod Recover
pub mod Dispatch
pub mod Rounds
pub mod Placed
pub mod Left
pub mod Dealt
pub mod Stuck
use Prim.Native.String.{String, []}
use text.Mathlib.Text.{◌==◌ as str_eq}
use go_flash_job.Base.{
  ℕ, suc, ◌%◌, Bool, false, ◌&&◌, ◌||◌, Option, none, some, List, ◌∷◌, map, ◌==◌, if◌then◌else◌,
  length, get_or, set, ℤ, pos, ◌+ℤ◌, ◌-ℤ◌, ltb_ℤ, [],
}
use go_flash_job.Model.{
  retry, dead, priority_high, priority_low, Task, TaskCommand, trigger, dispatch,
}
use go_flash_job.Redis.{
  global_queue, pending_queue, HKey, task_detail, Value, plain, int, json, Redis,
}
use go_flash_job.Redis.World.{
  ◌>>=◌, Res, ok, err, M, ret, ◌>>◌, attempt, ignore_error, call, write, read, current_time,
  send_mq,
}
use go_flash_job.Detail.{as_task, detail_field}
use go_flash_job.Fsm.{Fsm, register_hook, fire, save_dead_task}
use go_flash_job.Backoff.{backoff, after}
use go_flash_job.Processor
use go_flash_job.Processor.{P, new_p, push}
use go_flash_job.Status.{as_plain}

abbrev pub num_p : ℕ
num_p = 2

abbrev pub preload_window : ℤ
preload_window = pos 1

abbrev pub recover_pending_batch : ℕ
recover_pending_batch = 1000

-- recoverPendingTimeout and agingThreshold, in seconds.
abbrev pub recover_pending_timeout : ℤ
recover_pending_timeout = pos 120

abbrev pub aging_threshold : ℤ
aging_threshold = pos 300

-- NewScheduler's processors.
unfoldable pub new_ps : List P
unfolding new_p
new_ps = new_p 0 ∷ new_p 1 ∷ []

-- The flat reply of ZRANGEBYSCORE WITHSCORES.
abbrev pub flat_reply : List (String × ℤ) → List Value
flat_reply [] = []
flat_reply ((m, s) ∷ r) = plain m ∷ int s ∷ flat_reply r

-- The first loop of parseTasks; a score that is no number is skipped. It runs on even lengths.
unfoldable pub parse_pairs : List Value → List (String × ℤ)
parse_pairs [] = []
parse_pairs (m ∷ []) = []
parse_pairs (m ∷ int s ∷ r) = (as_plain (some m), s) ∷ parse_pairs r
parse_pairs (m ∷ v ∷ r) = parse_pairs r

-- applyAging: whether a task is promoted, and the task after it.
abbrev pub is_aged : ℤ → Task → Bool
is_aged now t =
    str_eq t.priority priority_low
    && ltb_ℤ (pos 0) t.enqueue_at
    && ltb_ℤ aging_threshold (now -ℤ t.enqueue_at)

unfoldable pub age : ℤ → Task → Task
age now t = if is_aged now t then record t { priority = priority_high } else t

abbrev pub any_aged : ℤ → List Task → Bool
any_aged now [] = false
any_aged now (t ∷ r) = is_aged now t || any_aged now r

-- The message that publishToMQ builds.
unfoldable pub command_of : Task → TaskCommand
command_of t = record {
  id = t.id;
  name = t.name;
  callback_url = t.callback_url;
  trigger_time = t.trigger_time;
  priority = t.priority;
  retry_count = t.retry_count;
  max_retry = t.max_retry;
  timeout = t.timeout;
  payload = t.payload;
}

-- A task that could not be published, as executeTask puts it back: `frac` is the clock's part of
-- a second in nanoseconds, `jitter` the random number.
unfoldable pub delayed : ℤ → ℕ → ℕ → Task → Task
unfolding backoff after ◌+ℤ◌
delayed now frac jitter t =
    let retry = t.retry_count +ℤ pos 1 in
    record t { retry_count = retry; trigger_time = after now frac (backoff retry jitter) }

-- balanceTasks: the task at index `i` goes to a processor in turn, if its TRIGGER succeeded.
unfoldable pub placed : ℕ → Task → Res (Unit {0}) → List P → List P
unfolding push
placed i t (err e) ps = ps
placed i t (ok _) ps = let j = i % num_p in set ps j (push t (get_or ps j (new_p j)))

module _ (R : Redis) where
  -- The loop of fetchExpiredScript.
  unfoldable pub move_expired : List (String × ℤ) → R.Db → R.Db
  move_expired [] d = d
  move_expired ((m, s) ∷ r) d = move_expired r (R.zrem global_queue m (R.zadd pending_queue s m d))

  -- fetchExpiredScript
  unfoldable pub fetch_expired : ℤ → R.Db → List Value × R.Db
  unfolding move_expired
  fetch_expired max_score d =
      let items = R.zrange d global_queue (some max_score) in
      (flat_reply items, move_expired items d)

  -- The second loop of parseTasks, over the replies of the HGET pipeline.
  unfoldable pub load_tasks : (String → Option Value) → List (String × ℤ) → List Task
  load_tasks data_of [] = []
  load_tasks data_of ((m, s) ∷ r) =
      let rest = load_tasks data_of r in
      elim (as_task (data_of m)) [ none ↦ rest | some t ↦ record t { trigger_time = s } ∷ rest ]

  -- The HGET pipeline of parseTasks and what follows; a pipeline that fails gives no task.
  unfoldable pub load_details : List (String × ℤ) → M R (List Task)
  unfolding load_tasks
  load_details pairs = do
    data_of ← attempt (read (λ d m. detail_field R d m))
    elim data_of [ err e ↦ ret [] | ok f ↦ ret (load_tasks f pairs) ]

  -- parseTasks
  unfoldable pub parse_tasks : List Value → M R (List Task)
  unfolding parse_pairs load_details
  parse_tasks reply =
      let pairs = parse_pairs reply in
      if length reply == 0 || length reply % 2 == 1
      then ret []
      else if length pairs == 0
      then ret []
      else load_details pairs

  -- The pipeline of applyAging.
  unfoldable pub store_aged : ℤ → List Task → R.Db → R.Db
  unfolding age
  store_aged now [] d = d
  store_aged now (t ∷ r) d =
      let d' = R.hset (HKey.task_detail t.id) "data" (json (age now t)) d in
      store_aged now r (if is_aged now t then d' else d)

  unfoldable pub apply_aging : List Task → M R (List Task)
  unfolding age store_aged
  apply_aging ts = do
    now ← current_time
    if any_aged now ts then ignore_error (write (store_aged now ts)) else ret tt
    ret (map (age now) ts)

  -- balanceTasks, from index `i` on: a task whose TRIGGER fails is skipped.
  unfoldable pub balance_tasks : Fsm R → ℕ → List Task → List P → M R (List P)
  unfolding placed
  balance_tasks f i [] ps = ret ps
  balance_tasks f i (t ∷ r) ps = do
    fired ← attempt (fire R f trigger t)
    balance_tasks f (suc i) r (placed i t fired ps)

  -- A round of fetcherLoop.
  unfoldable pub fetch_round : Fsm R → List P → M R (List P)
  unfolding fetch_expired parse_tasks apply_aging balance_tasks ◌+ℤ◌
  fetch_round f ps = do
    now ← current_time
    reply ← attempt (call (fetch_expired (now +ℤ preload_window)))
    elim reply [
      | err e ↦ ret ps
      | ok items ↦ do tasks ← parse_tasks items; aged ← apply_aging tasks; balance_tasks f 0 aged ps
    ]

  -- publishToMQ
  unfoldable pub publish_to_mq : Task → M R (Unit {0})
  unfolding command_of
  publish_to_mq t = send_mq (command_of t)

  -- removeFromPending
  unfoldable pub remove_from_pending : String → M R (Unit {0})
  remove_from_pending id = write (R.zrem pending_queue id)

  -- executeTask of p.go, by processor `p`.
  unfoldable pub execute_task : Fsm R → ℕ → ℕ → P → Task → M R P
  unfolding publish_to_mq remove_from_pending delayed push
  execute_task f frac jitter p t = do
    fired ← attempt (fire R f dispatch t)
    elim fired [
      | err e ↦ ret p
      | ok _ ↦ do
        published ← attempt (publish_to_mq t)
        now ← current_time
        elim published [
          | err e ↦ ret (push (delayed now frac jitter t) p)
          | ok _ ↦ ignore_error (remove_from_pending t.id) >> ret p
        ]
    ]

  -- The pipelines of recoverPendingTasks and recoverStalePendingLoop: back to the global queue.
  unfoldable pub requeue : ℤ → List (String × ℤ) → R.Db → R.Db
  requeue now [] d = d
  requeue now ((m, s) ∷ r) d = requeue now r (R.zrem pending_queue m (R.zadd global_queue now m d))

  unfoldable pub requeue_all : List (String × ℤ) → M R (Unit {0})
  unfolding requeue
  requeue_all ids = do
    now ← current_time
    if length ids == 0 then ret tt else write (requeue now ids)

  -- Both of them, for the tasks in the pending queue up to `deadline`.
  unfoldable pub recover_up_to : ℤ → M R (Unit {0})
  unfolding requeue_all
  recover_up_to deadline = do
    ids ← read (λ d. R.zrange_limit recover_pending_batch d pending_queue (some deadline))
    requeue_all ids

  -- recoverPendingTasks
  unfoldable pub recover_pending_tasks : M R (Unit {0})
  unfolding recover_up_to
  recover_pending_tasks = do now ← current_time; ignore_error (recover_up_to now)

  -- A round of recoverStalePendingLoop.
  unfoldable pub recover_stale_pending : M R (Unit {0})
  unfolding recover_up_to ◌-ℤ◌
  recover_stale_pending = do
    now ← current_time
    ignore_error (recover_up_to (now -ℤ recover_pending_timeout))

  -- registerFSMHooks
  unfoldable pub register_fsm_hooks : Fsm R → Fsm R
  unfolding register_hook save_dead_task
  register_fsm_hooks f = register_hook R dead (λ t. save_dead_task R t "max retry exhausted") f
