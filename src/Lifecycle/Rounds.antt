-- ===== src/Lifecycle/Rounds.antt =====
-- What the background loops of a scheduler keep, however their calls end.
use Prim.Native.String.{String}
use go_flash_job.Base.{
  suc, Bool, true, false, Option, none, some, List, [], ◌∷◌, ◌==◌, if◌then◌else◌, length, ℤ, ◌-ℤ◌,
}
use go_flash_job.Model.{TaskStatus, pending, Task}
use go_flash_job.Redis.{global_queue, active_tasks, terminal_tasks, Value, Redis}
use go_flash_job.Redis.World.{
  Res, ok, err, World, M, ret, ◌>>=◌, ◌>>◌, caught, attempt, call, write, read, current_time,
  call_keeps, bind_keeps,
}
use go_flash_job.Status.{set_status}
use go_flash_job.Detail.{as_task, detail_field, detail_found, get_task_detail}
use go_flash_job.Fsm.{save_state}
use go_flash_job.Scheduler.{
  requeue, requeue_all, recover_up_to, recover_pending_tasks, recover_stale_pending,
}
use go_flash_job.Recovery.{
  members, state_hash, revive_queued, revive, recover_detailed, recover_got, recover_one,
  monitor_detailed, monitor_got, monitor_one, count_revived, recover_stale_tasks,
  monitor_stale_states, clear_states, clean_terminal_states,
}
use go_flash_job.Lifecycle.{
  stale_timeout, begin_leading, stale_monitor_round, terminal_clean_round, Round, begins, requeues,
  monitors, cleans, background, run_rounds,
}

-- A property of the database that each of their writes keeps.
pub record IsStable (R : Redis) (P : R.Db → Type 0) : Type 0 where
  pub queues : (s : ℤ) (m : String) (d : R.Db) → P d → P (R.zadd global_queue s m d)
  pub sets : (t : Task) (s : TaskStatus) (now : ℤ) (d : R.Db) → P d → P (set_status R t s now d)
  pub requeues_all : (now : ℤ) (l : List (String × ℤ)) (d : R.Db) → P d → P (requeue R now l d)
  pub clears : (ids : List String) (d : R.Db) → P d → P (clear_states R ids d)

module _ (R : Redis) (P : R.Db → Type 0) (stable : IsStable R P) where
  -- A computation that keeps the property, however its calls end.
  abbrev pub Keeps : {A : Type 0} → M R A → Type 0
  Keeps m = (w : World R) → P w.db → P (m w).1.db

  save_state-Keeps : (t : Task) (s : TaskStatus) → Keeps (save_state R t s)
  unfolding save_state
  save_state-Keeps t s w p =
      call_keeps R P (λ d. (tt {0}, set_status R t s w.now d)) w p (stable.sets t s w.now w.db p)

  detail_found-Keeps : (o : Option Task) → Keeps (detail_found R o)
  unfolding detail_found
  detail_found-Keeps none w p = p
  detail_found-Keeps (some t) w p = p

  get_task_detail-Keeps : (id : String) → Keeps (get_task_detail R id)
  unfolding get_task_detail
  get_task_detail-Keeps id w p =
      bind_keeps R P (call {R = R} (λ d. (detail_field R d id, d)) w)
        (λ v. detail_found R (as_task v)) (call_keeps R P (λ d. (detail_field R d id, d)) w p p)
        (λ v w' q. detail_found-Keeps (as_task v) w' q)

  revive_queued-Keeps : (t : Task) (r : Res (Unit {0})) → Keeps (revive_queued R t r)
  unfolding revive_queued
  revive_queued-Keeps t (err e) w p = p
  revive_queued-Keeps t (ok u) w p = save_state-Keeps t pending w p

  revive-Keeps : (id : String) (t : Task) → Keeps (revive R id t)
  unfolding revive
  revive-Keeps id t w p =
      let add : R.Db → Unit {0} × R.Db = λ d. (tt, R.zadd global_queue t.trigger_time id d) in
      bind_keeps R P (caught (call {R = R} add w)) (revive_queued R t)
        (call_keeps R P add w p (stable.queues t.trigger_time id w.db p)) (revive_queued-Keeps t)

  if-Keeps : {A : Type 0} (b : Bool) (m k : M R A) → Keeps m → Keeps k → Keeps (if b then m else k)
  if-Keeps true m k hm hk = hm
  if-Keeps false m k hm hk = hk

  -- A detail is read, with its error as a value, for a continuation.
  with_detail-Keeps :
      (id : String) (k : Res Task → M R Bool)
      → ((r : Res Task) → Keeps (k r))
      → Keeps (attempt (get_task_detail R id) >>= k)
  with_detail-Keeps id k h w p =
      bind_keeps R P (caught (get_task_detail R id w)) k (get_task_detail-Keeps id w p) h

  recover_got-Keeps :
      (now : ℤ) (id : String) (r : Res (String → Option Value)) → Keeps (recover_got R now id r)
  unfolding recover_got recover_detailed
  recover_got-Keeps now id (err e) = λ w p. p
  recover_got-Keeps now id (ok fields) =
      if-Keeps _ (ret false) (attempt (get_task_detail R id) >>= recover_detailed R now id fields)
        (λ w p. p)
        (with_detail-Keeps id (recover_detailed R now id fields) (λ r. revive-Keeps id _))

  monitor_got-Keeps :
      (now : ℤ) (id : String) (r : Res (String → Option Value)) → Keeps (monitor_got R now id r)
  unfolding monitor_got monitor_detailed
  monitor_got-Keeps now id (err e) = λ w p. p
  monitor_got-Keeps now id (ok fields) =
      if-Keeps _ (attempt (get_task_detail R id) >>= monitor_detailed R now id fields) (ret false)
        (with_detail-Keeps id (monitor_detailed R now id fields) (λ r. revive-Keeps id _))
        (λ w p. p)

  with_state-Keeps :
      (id : String) (k : Res (String → Option Value) → M R Bool)
      → ((r : Res (String → Option Value)) → Keeps (k r))
      → Keeps (attempt (read (λ d. state_hash R d id)) >>= k)
  with_state-Keeps id k h w p =
      bind_keeps R P (caught (call {R = R} (λ d. (state_hash R d id, d)) w)) k
        (call_keeps R P (λ d. (state_hash R d id, d)) w p p) h

  count_revived-Keeps :
      (body : String → M R Bool)
      → ((id : String) → Keeps (body id))
      → (ids : List String) → Keeps (count_revived R body ids)
  unfolding count_revived
  count_revived-Keeps body h [] w p = p
  count_revived-Keeps body h (id ∷ r) w p =
      bind_keeps R P (body id w)
        (λ counted. count_revived R body r >>= λ n. ret (if counted then suc n else n)) (h id w p)
        (λ counted v q.
          bind_keeps R P (count_revived R body r v) (λ n. ret (if counted then suc n else n))
            (count_revived-Keeps body h r v q) (λ n u o. o))

  -- A range is read, for a continuation.
  with_range-Keeps :
      {A : Type 0} (f : R.Db → List (String × ℤ)) (k : List (String × ℤ) → M R A)
      → ((l : List (String × ℤ)) → Keeps (k l))
      → Keeps (read f >>= k)
  with_range-Keeps f k h w p =
      bind_keeps R P (call {R = R} (λ d. (f d, d)) w) k (call_keeps R P (λ d. (f d, d)) w p p) h

  recover_stale_tasks-Keeps : Keeps (recover_stale_tasks R)
  unfolding recover_stale_tasks recover_one
  recover_stale_tasks-Keeps =
      with_range-Keeps (λ d. R.zrange_limit 10000 d active_tasks none)
        (λ ids. current_time >>= λ now. count_revived R (recover_one R now) (members ids))
        (λ ids w.
          count_revived-Keeps (recover_one R w.now)
            (λ id. with_state-Keeps id (recover_got R w.now id) (recover_got-Keeps w.now id))
            (members ids) w)

  monitor_stale_states-Keeps : (timeout : ℤ) → Keeps (monitor_stale_states R timeout)
  unfolding monitor_stale_states monitor_one
  monitor_stale_states-Keeps timeout w =
      with_range-Keeps (λ d. R.zrange_limit 1000 d active_tasks (some (w.now -ℤ timeout)))
        (λ ids. count_revived R (monitor_one R w.now) (members ids))
        (λ ids.
          count_revived-Keeps (monitor_one R w.now)
            (λ id. with_state-Keeps id (monitor_got R w.now id) (monitor_got-Keeps w.now id))
            (members ids))
        w

  clear-Keeps :
      (ids : List (String × ℤ))
      → Keeps (
          if length ids == 0
          then ret 0
          else write (clear_states R (members ids)) >> ret (length ids))
  clear-Keeps ids =
      if-Keeps (length ids == 0) (ret 0) (write (clear_states R (members ids)) >> ret (length ids))
        (λ w p. p)
        (λ w p.
          bind_keeps R P (call {R = R} (λ d. (tt {0}, clear_states R (members ids) d)) w)
            (λ u. ret (length ids))
            (call_keeps R P (λ d. (tt {0}, clear_states R (members ids) d)) w p
              (stable.clears (members ids) w.db p))
            (λ u v q. q))

  clean_terminal_states-Keeps : (before : ℤ) → Keeps (clean_terminal_states R before)
  unfolding clean_terminal_states
  clean_terminal_states-Keeps before =
      with_range-Keeps (λ d. R.zrange_limit 1000 d terminal_tasks (some before)) _ clear-Keeps

  requeue_all-Keeps : (l : List (String × ℤ)) → Keeps (requeue_all R l)
  unfolding requeue_all
  requeue_all-Keeps l w =
      if-Keeps (length l == 0) (ret tt) (write (requeue R w.now l)) (λ v p. p)
        (λ v p.
          call_keeps R P (λ d. (tt {0}, requeue R w.now l d)) v p
            (stable.requeues_all w.now l v.db p))
        w

  recover_up_to-Keeps : (deadline : ℤ) → Keeps (recover_up_to R deadline)
  unfolding recover_up_to
  recover_up_to-Keeps deadline = with_range-Keeps _ (requeue_all R) requeue_all-Keeps

  background-Keeps : (r : Round) → Keeps (background R r)
  unfolding background begin_leading stale_monitor_round terminal_clean_round recover_stale_pending
      recover_pending_tasks
  background-Keeps begins w p =
      recover_stale_tasks-Keeps (recover_pending_tasks R w).1 (recover_up_to-Keeps w.now w p)
  background-Keeps requeues w p = recover_up_to-Keeps _ w p
  background-Keeps monitors w p = monitor_stale_states-Keeps stale_timeout w p
  background-Keeps cleans w p = clean_terminal_states-Keeps _ w p

  pub run_rounds-Keeps : (rs : List Round) → Keeps (run_rounds R rs)
  unfolding run_rounds
  run_rounds-Keeps [] w p = p
  run_rounds-Keeps (r ∷ rs) w p =
      bind_keeps R P (background R r w) (λ u. run_rounds R rs) (background-Keeps r w p)
        (λ u v q. run_rounds-Keeps rs v q)
