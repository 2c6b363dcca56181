-- ===== src/Recovery/Revive.antt =====
-- A stuck task and MonitorStaleStates.
use Prim.Native.String.{String}
use go_flash_job.Base.{◌≡◌, refl, ap, ◌∙◌, inl, inr, true, false, some, [], Bool-cases, ℤ, ltb_ℤ}
use go_flash_job.Model.{TaskStatus, pending, Task}
use go_flash_job.Redis.{global_queue, status, json, Redis}
use go_flash_job.Redis.World.{Link, up, down, lost, ok, head_link, World, continue_with, caught}
use go_flash_job.Status.{is_terminal, as_status, status_field, set_status}
use go_flash_job.Detail.{detail_field, get_task_detail, reread}
use text.Mathlib.TextPositions.{eq_refl}
use go_flash_job.Redis.Laws.{zscore-zadd, reads_at}
use go_flash_job.Status.Writes.{status-set_status}
use go_flash_job.Fsm.{save_state}
use go_flash_job.Recovery.{
  in_flight, detail_or_rebuilt, not_before, state_hash, revive, monitor_one,
}

module _ (R : Redis) where
  -- A task that no loop has moved on is left alone by MonitorStaleStates' body, unless it is
  -- DISPATCHED or RUNNING; the network may fail in any way.
  monitor_one-other :
      (now : ℤ) (id : String) (w : World R)
      → in_flight (as_status (status_field R w.db id)) ≡ false
      → ((monitor_one R now id w).1.db ≡ w.db) × ((monitor_one R now id w).0 ≡ ok false)
  unfolding monitor_one
  monitor_one-other now id w idle = by_link (head_link w.links) refl
    where
      by_link :
          (l : Link)
          → head_link w.links ≡ l
          → ((monitor_one R now id w).1.db ≡ w.db) × ((monitor_one R now id w).0 ≡ ok false)
      by_link up on = rw (on, idle) (refl, refl)
      by_link down on = rw on (refl, refl)
      by_link lost on = rw on (refl, refl)

  set_status-queue :
      (t : Task) (s : TaskStatus) (now : ℤ) (d : R.Db) (m : String)
      → R.zscore (set_status R t s now d) global_queue m ≡ R.zscore d global_queue m
  unfolding set_status
  set_status-queue t s now d m = elim (Bool-cases (is_terminal s)) [
    | inl e ↦ rw e (simp reads_at)
    | inr e ↦ rw e (simp reads_at)
  ]

  not_before-id : (now time : ℤ) (t : Task) → (not_before now time t).id ≡ t.id
  unfolding not_before
  not_before-id now time t = elim (Bool-cases (ltb_ℤ time now)) [ inl e ↦ rw e | inr e ↦ rw e ]

  revive_up :
      (id : String) (t : Task) (w : World R)
      → w.links ≡ []
      → (revive R id t w).0 ≡ ok true
        × ((revive R id t w).1.db
            ≡ set_status R t pending w.now (R.zadd global_queue t.trigger_time id w.db))
  unfolding revive save_state
  revive_up id t w on = rw on (refl, refl)

  detail_up :
      (t : Task) (w : World R)
      → w.links ≡ []
      → detail_field R w.db t.id ≡ some (json t)
      → get_task_detail R t.id w ≡ (ok (reread t), record w { links = [] })
  unfolding get_task_detail
  detail_up t w on stored = rw (on, stored)

  monitor_one_up :
      (now : ℤ) (t : Task) (w : World R)
      → w.links ≡ []
      → in_flight (as_status (status_field R w.db t.id)) ≡ true
      → detail_field R w.db t.id ≡ some (json t)
      → monitor_one R now t.id w
        ≡ revive R t.id (not_before now t.trigger_time (reread t)) (record w { links = [] })
  unfolding monitor_one detail_or_rebuilt
  monitor_one_up now t w on stuck stored =
      rw (on, stuck)
        (ap
          (λ r. continue_with (caught r) (λ detail.
            let found = detail_or_rebuilt t.id (state_hash R w.db t.id) detail in
            revive R t.id (not_before now found.trigger_time found)))
          (detail_up t (record w { links = [] }) refl stored))

  -- With the network up, a DISPATCHED or RUNNING task with a stored detail is PENDING after
  -- MonitorStaleStates' body and stands in the global queue, not earlier than now.
  pub monitor_one-revives :
      (now : ℤ) (t : Task) (w : World R)
      → w.links ≡ []
      → in_flight (as_status (status_field R w.db t.id)) ≡ true
      → detail_field R w.db t.id ≡ some (json t)
      → let w' = (monitor_one R now t.id w).1 in
        ((monitor_one R now t.id w).0 ≡ ok true)
        × (status_field R w'.db t.id ≡ some (status pending))
        × (R.zscore w'.db global_queue t.id
            ≡ some (not_before now t.trigger_time (reread t)).trigger_time)
  monitor_one-revives now t w on stuck stored =
      let t' = not_before now t.trigger_time (reread t) in
      let calm : World R = record w { links = [] } in
      let (answer, written) = revive_up t.id t' calm refl in
      let queued = R.zadd global_queue t'.trigger_time t.id w.db in
      rw (monitor_one_up now t w on stuck stored, answer, written)
        (
          refl,
          status-set_status R queued t' pending w.now t.id
              ∙ rw (not_before-id now t.trigger_time (reread t), eq_refl),
          set_status-queue t' pending w.now queued t.id ∙ rw (zscore-zadd, eq_refl),
        )
