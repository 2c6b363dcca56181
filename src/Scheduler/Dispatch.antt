-- ===== src/Scheduler/Dispatch.antt =====
-- Which tasks balanceTasks and executeTask let through.
use text.Mathlib.TextPositions.{eq_refl}
use go_flash_job.Base.{ℕ, suc, ◌≡◌, refl, ap, ◌∙◌, none, some, List, [], ◌∷◌}
use go_flash_job.Model.{TaskStatus, ready, dispatched, retry, Task, Event, trigger, dispatch}
use go_flash_job.Redis.{pending_queue, status, Redis}
use go_flash_job.Redis.World.{Link, up, down, ok, World}
use go_flash_job.Status.{status_field, set_status}
use go_flash_job.Status.Writes.{status-set_status}
use go_flash_job.Fsm.{legal_transitions, find_transition, Fsm, state_or_pending}
use go_flash_job.Fsm.Up.{fire_up}
use go_flash_job.Fsm.Race.{fire_illegal}
use go_flash_job.Processor.{P, push}
use go_flash_job.Scheduler.{command_of, delayed, placed, balance_tasks, execute_task}

module _ (R : Redis) where
  -- No transition of the machine takes the task's status further on the event.
  abbrev IsStuck : Fsm R → Event → R.Db → Task → Type 0
  IsStuck f e d t =
      find_transition f.transitions (state_or_pending R (status_field R d t.id)) e ≡ none

  abbrev AllStuck : Fsm R → Event → R.Db → List Task → Type 0
  AllStuck f e d [] = Unit
  AllStuck f e d (t ∷ r) = IsStuck f e d t × AllStuck f e d r

  -- balanceTasks gives no processor a task whose status has no TRIGGER transition; the network
  -- may fail in any way.
  pub balance_tasks-stuck :
      (f : Fsm R) (i : ℕ) (ts : List Task) (ps : List P) (w : World R)
      → AllStuck f trigger w.db ts
      → (w' : World R) × (balance_tasks R f i ts ps w ≡ (ok ps, w')) × (w'.db ≡ w.db)
  unfolding balance_tasks placed
  balance_tasks-stuck f i [] ps w h = (w, refl, refl)
  balance_tasks-stuck f i (t ∷ r) ps w h =
      let (x, w₁, e, same, mq) = fire_illegal R f trigger t w h.0 in
      let (w₂, e₂, same₂) = balance_tasks-stuck f (suc i) r ps w₁ (rw same h.1) in
      (w₂, rw e e₂, same₂ ∙ same)

  -- executeTask sends no message for a task whose status has no DISPATCH transition, and drops it.
  pub execute_task-stuck :
      (f : Fsm R) (frac jitter : ℕ) (p : P) (t : Task) (w : World R)
      → IsStuck f dispatch w.db t
      → (w' : World R) × (execute_task R f frac jitter p t w ≡ (ok p, w'))
        × (w'.db ≡ w.db)
        × (w'.mq ≡ w.mq)
  unfolding execute_task
  execute_task-stuck f frac jitter p t w h =
      let (x, w₁, e, same, mq) = fire_illegal R f dispatch t w h in (w₁, rw e, same, mq)

  -- Every task of the list has the stored status `s`.
  abbrev pub AllHave : TaskStatus → R.Db → List Task → Type 0
  AllHave s d [] = Unit
  AllHave s d (t ∷ r) = (status_field R d t.id ≡ some (status s)) × AllHave s d r

  retry_stuck :
      (f : Fsm R) (d : R.Db) (ts : List Task)
      → f.transitions ≡ legal_transitions
      → AllHave retry d ts
      → AllStuck f trigger d ts
  unfolding find_transition legal_transitions
  retry_stuck f d [] legal h = tt
  retry_stuck f d (t ∷ r) legal h = (rw (legal, h.0), retry_stuck f d r legal h.1)

  -- With the legal table, tasks that all have the status RETRY reach no processor through
  -- balanceTasks, in no run of the network, and the database is unchanged: the table has only
  -- the event RETRY for them, and the loop fires TRIGGER.
  pub balance_tasks-retry :
      (f : Fsm R) (i : ℕ) (ts : List Task) (ps : List P) (w : World R)
      → f.transitions ≡ legal_transitions
      → AllHave retry w.db ts
      → (w' : World R) × (balance_tasks R f i ts ps w ≡ (ok ps, w')) × (w'.db ≡ w.db)
  balance_tasks-retry f i ts ps w legal stored =
      balance_tasks-stuck f i ts ps w (retry_stuck f w.db ts legal stored)

  dispatch_ready :
      (f : Fsm R)
      → f.transitions ≡ legal_transitions
      → find_transition f.transitions ready dispatch ≡ some dispatched
  unfolding find_transition legal_transitions
  dispatch_ready f legal = rw legal

  module _ (f : Fsm R) (frac jitter : ℕ) (p : P) (t : Task) (w : World R) (l : List Link)
      (legal : f.transitions ≡ legal_transitions) (quiet : f.hooks dispatched ≡ [])
      (stored : status_field R w.db t.id ≡ some (status ready)) where
    -- With the legal table and no hook on DISPATCHED: a READY task whose calls all get through
    -- is published once, is DISPATCHED and has left the pending queue; the processor is
    -- unchanged.
    pub execute_task-publishes :
        w.links ≡ up ∷ up ∷ up ∷ up ∷ l
        → execute_task R f frac jitter p t w ≡ (
          ok p,
          record w {
            db = R.zrem pending_queue t.id (set_status R t dispatched w.now w.db);
            links = l;
            mq = command_of t ∷ w.mq;
          },
        )
    unfolding execute_task
    execute_task-publishes on = rw (
        fire_up R f dispatch t ready dispatched w (up ∷ up ∷ l) on stored (dispatch_ready f legal)
          quiet)

    -- A task that cannot be published is back in the processor's queue with its retry delay.
    execute_task-delays :
        w.links ≡ up ∷ up ∷ down ∷ l
        → execute_task R f frac jitter p t w ≡ (
          ok (push (delayed w.now frac jitter t) p),
          record w { db = set_status R t dispatched w.now w.db; links = l },
        )
    unfolding execute_task
    execute_task-delays on = rw (
        fire_up R f dispatch t ready dispatched w (down ∷ l) on stored (dispatch_ready f legal)
          quiet)

    dispatched-IsStuck :
        {d : R.Db}
        → d ≡ set_status R t dispatched w.now w.db
        → IsStuck f dispatch d (delayed w.now frac jitter t)
    unfolding delayed find_transition legal_transitions
    dispatched-IsStuck here = rw (here, status-set_status, eq_refl, legal)

    -- With the legal table and no hook on DISPATCHED: when the broker refuses a READY task,
    -- executeTask puts it back in the queue for another try, but the task is DISPATCHED by then:
    -- another try on the same database, at any time and over any network, sends no message
    -- either and drops it.
    pub execute_task-republish :
        (on : w.links ≡ up ∷ up ∷ down ∷ l) (frac' jitter' : ℕ) (p' : P) (w' : World R)
        → let first = execute_task R f frac jitter p t w in
          w'.db ≡ first.1.db
          → let second = execute_task R f frac' jitter' p' (delayed w.now frac jitter t) w' in
            (first.0 ≡ ok (push (delayed w.now frac jitter t) p))
            × (first.1.mq ≡ w.mq)
            × (second.0 ≡ ok p')
            × (second.1.mq ≡ w'.mq)
    execute_task-republish on frac' jitter' p' w' same =
        let ran = execute_task-delays on in
        let here = same ∙ ap (λ r. r.1.db) ran in
        let (w₂, e, kept, sent) =
          execute_task-stuck f frac' jitter' p' (delayed w.now frac jitter t) w'
            (dispatched-IsStuck here) in
        (ap (λ r. r.0) ran, ap (λ r. r.1.mq) ran, ap (λ r. r.0) e, ap (λ r. r.1.mq) e ∙ sent)
