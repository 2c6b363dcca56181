-- ===== src/Scheduler/Stuck.antt =====
-- A job in RETRY, whatever fetcherLoop, the processors and recoverStalePendingLoop do: what the
-- state machine and executeTask keep.
pub mod Forever
use Prim.Native.String.{String}
use text.Mathlib.Text.{◌==◌ as str_eq}
use text.Mathlib.TextEquality.{eq_iff}
use go_flash_job.Base.{
  ℕ, zero, suc, ◌+◌, ◌-◌, ◌*◌, ◌/◌, ◌%◌, ◌^◌, ◌≤◌, ◌<◌, ◌≡◌, refl, sym, ap, ◌∙◌, ◌≢◌, ◌↔◌, ◌⊎◌, inl,
  inr, Bool, true, false, not, ◌&&◌, ◌||◌, Option, none, some, List, [], ◌∷◌, ◌++◌, map, Mem, Perm,
  arith, ltb, leb, ◌==◌, if◌then◌else◌, Bool-cases, Option-cases, length, get_or, set, take,
  length-append, length-set, length-perm, ℤ, pos, negsuc, pos_part, neg_part, ◌+ℤ◌, ◌-ℤ◌, ◌≤ℤ◌,
  ltb_ℤ, leb_ℤ, ◌==ℤ◌, +ℤ_parts, eq_of_parts, count, count-append, count-length, count-le,
  count-perm, one_if, ltb→lt, lt→ltb, leb→le, ==_iff,
}
use go_flash_job.Model.{
  TaskStatus, pending, ready, dispatched, running, success, retry, dead, unknown, trigger, dispatch,
  Event, Task, TaskCommand, Error,
}
use go_flash_job.Redis.{
  ZKey, global_queue, pending_queue, dead_queue, active_tasks, terminal_tasks, HKey, task_state,
  task_detail, dead_detail, SKey, exec_dedupe, Value, plain, int, status, json, zkey_number,
  zkey_eq, hkey_eq, skey_eq, find, Distinct, in_range, keep_in_range, Redis,
}
use go_flash_job.Redis.World.{
  Link, up, down, lost, Res, ok, err, head_link, tail_links, World, M, ret, fail_with,
  continue_with, ◌>>=◌, ◌>>◌, caught, attempt, ignore_error, call_on, call, write, read,
  current_time, send_mq_on, send_mq, send_kafka_on, send_kafka, call_keeps, bind_keeps,
  send_kafka-db,
}
use go_flash_job.Redis.Laws.{reads_at}
use go_flash_job.Status.{status_field, set_status, status_eq, as_status}
use go_flash_job.Status.Writes.{status-set_status}
use go_flash_job.Detail.{detail_field, as_task}
use go_flash_job.Fsm.{
  Fsm, legal_transitions, find_transition, fire, fire_to, fire_from, get_state, cas_script,
  run_hooks, state_or_pending,
}
use go_flash_job.Fsm.Race.{fire_illegal}
use go_flash_job.Processor.{P, push}
use go_flash_job.Scheduler.{
  num_p, preload_window, recover_pending_batch, recover_pending_timeout, aging_threshold, new_ps,
  flat_reply, parse_pairs, is_aged, age, any_aged, command_of, delayed, placed, move_expired,
  fetch_expired, load_tasks, load_details, parse_tasks, store_aged, apply_aging, balance_tasks,
  fetch_round, publish_to_mq, remove_from_pending, execute_task, requeue, requeue_all,
  recover_up_to, recover_pending_tasks, recover_stale_pending, register_fsm_hooks,
}
use go_flash_job.Scheduler.Queues.{move_hashes}
use go_flash_job.Scheduler.Placed.{store_aged-status}

-- What a leading scheduler does, with the time and the network at that point: a round of
-- fetcherLoop, executeTask of a processor, and a round of recoverStalePendingLoop.
pub data Happening : Type 0 where
  fetches requeues : ℤ → List Link → Happening
  executes : ℤ → List Link → ℕ → ℕ → P → Task → Happening

-- The messages for a job.
abbrev pub is_for : String → TaskCommand → Bool
is_for id c = str_eq c.id id

module _ (R : Redis) where
  abbrev pub meets : ℤ → List Link → World R → World R
  meets now links w = record w { now = now; links = links }

  unfoldable pub happens : Fsm R → Happening → List P × World R → List P × World R
  unfolding fetch_round recover_stale_pending execute_task
  happens f (fetches now l) (ps, w) =
      let r = fetch_round R f ps (meets now l w) in (elim r.0 [ err e ↦ ps | ok ps' ↦ ps' ], r.1)
  happens f (requeues now l) (ps, w) = (ps, (recover_stale_pending R (meets now l w)).1)
  happens f (executes now l frac jitter p t) (ps, w) =
      (ps, (execute_task R f frac jitter p t (meets now l w)).1)

  unfoldable pub all_happen : Fsm R → List Happening → List P × World R → List P × World R
  unfolding happens
  all_happen f [] s = s
  all_happen f (h ∷ r) s = all_happen f r (happens f h s)

  module _ (id : String) (n : ℕ) where
    abbrev pub IsRetry : R.Db → Type 0
    IsRetry d = status_field R d id ≡ some (status retry)

    -- The job is in RETRY and has had `n` messages.
    abbrev pub Quiet : World R → Type 0
    Quiet w = IsRetry w.db × (count (is_for id) w.mq ≡ n)

    call_on-Quiet :
        {A : Type 0} (l : Link) (g : R.Db → A × R.Db) (w : World R)
        → Quiet w
        → IsRetry (g w.db).1
        → Quiet (call_on {R = R} l g w).1
    call_on-Quiet up g w q s = (s, q.1)
    call_on-Quiet down g w q s = q
    call_on-Quiet lost g w q s = (s, q.1)

    pub call-Quiet :
        {A : Type 0} (g : R.Db → A × R.Db) (w : World R)
        → Quiet w
        → IsRetry (g w.db).1
        → Quiet (call {R = R} g w).1
    call-Quiet g w q s = call_on-Quiet (head_link w.links) g w q s

    pub bind-Quiet :
        {A B : Type 0} (r : Res A × World R) (k : A → M R B)
        → Quiet r.1
        → ((a : A) (w : World R) → Quiet w → Quiet (k a w).1)
        → Quiet (continue_with {R = R} r k).1
    bind-Quiet (ok a, w) k q f = f a w q
    bind-Quiet (err e, w) k q f = q

    -- The statuses of the other jobs.
    other-IsRetry :
        (t : Task) (s : TaskStatus) (now : ℤ) (d : R.Db)
        → str_eq t.id id ≡ false
        → IsRetry d
        → IsRetry (set_status R t s now d)
    other-IsRetry t s now d other h = status-set_status R d t s now id ∙ rw other h

    cas_script-IsRetry :
        (a b : TaskStatus) (t : Task) (now : ℤ) (d : R.Db)
        → str_eq t.id id ≡ false
        → IsRetry d
        → IsRetry (cas_script R a b t now d).1
    unfolding cas_script
    cas_script-IsRetry a b t now d other h = elim (Option-cases (status_field R d t.id)) [
      | inl e ↦ rw (e, cas_script) h
      | inr (v, e) ↦ elim (Bool-cases (status_eq (as_status (some v)) a)) [
        | inl q ↦ rw (e, cas_script) (rw q (other-IsRetry t b now d other h))
        | inr q ↦ rw (e, cas_script) (rw q h)
      ]
    ]

    -- The event runs no hook.
    abbrev pub IsCalm : Fsm R → Event → Type 0
    IsCalm f e = (a b : TaskStatus) → find_transition f.transitions a e ≡ some b → f.hooks b ≡ []

    module _ (f : Fsm R) (legal : f.transitions ≡ legal_transitions) where
      fire_to-Quiet :
          (t : Task) (a b : TaskStatus) (w : World R)
          → str_eq t.id id ≡ false
          → f.hooks b ≡ []
          → Quiet w
          → Quiet (fire_to R f t a b w).1
      unfolding fire_to run_hooks
      fire_to-Quiet t a b w other calm q =
          bind-Quiet (call {R = R} (cas_script R a b t w.now) w) _
            (call-Quiet (cas_script R a b t w.now) w q
              (cas_script-IsRetry a b t w.now w.db other q.0))
            (λ m v g. elim (Bool-cases (m == 0)) [ inl e ↦ rw e g | inr e ↦ rw (e, calm) g ])

      fire_from-Quiet :
          (e : Event) (t : Task) (a : TaskStatus) (w : World R)
          → IsCalm f e
          → str_eq t.id id ≡ false
          → Quiet w
          → Quiet (fire_from R f e t a w).1
      unfolding fire_from
      fire_from-Quiet e t a w calm other q =
          elim (Option-cases (find_transition f.transitions a e)) [
            | inl none_found ↦ rw (none_found, fire_from) q
            | inr (b, found) ↦
                rw (found, fire_from) (fire_to-Quiet t a b w other (calm a b found) q)
          ]

      fire-Quiet :
          (e : Event) (t : Task) (w : World R)
          → IsCalm f e
          → str_eq t.id id ≡ false
          → Quiet w
          → Quiet (fire R f e t w).1
      unfolding fire get_state
      fire-Quiet e t w calm other q =
          bind-Quiet (get_state R t.id w) (fire_from R f e t)
            (bind-Quiet (read {R = R} (λ d. status_field R d t.id) w) _
              (call-Quiet (λ d. (status_field R d t.id, d)) w q q.0) (λ v w' g. g))
            (λ a w' g. fire_from-Quiet e t a w' calm other g)

      -- The job itself has no TRIGGER and no DISPATCH from RETRY.
      own-fire :
          (e : Event) (t : Task) (w : World R)
          → find_transition f.transitions retry e ≡ none
          → str_eq t.id id ≡ true
          → Quiet w
          → (x : Error) × (w' : World R) × (fire R f e t w ≡ (err x, w')) × Quiet w'
      own-fire e t w nowhere same q =
          let own : t.id ≡ id = (eq_iff t.id id).0 same in
          let (x, w', failed, db, mq) = fire_illegal R f e t w (rw (own, q.0) nowhere) in
          (x, w', failed, (rw db q.0, rw mq q.1))

      trigger_nowhere : find_transition f.transitions retry trigger ≡ none
      unfolding find_transition legal_transitions
      trigger_nowhere = rw legal refl

      dispatch_nowhere : find_transition f.transitions retry dispatch ≡ none
      unfolding find_transition legal_transitions
      dispatch_nowhere = rw legal refl

      pub balance_tasks-Quiet :
          (i : ℕ) (ts : List Task) (ps : List P) (w : World R)
          → IsCalm f trigger
          → Quiet w
          → Quiet (balance_tasks R f i ts ps w).1
      unfolding balance_tasks
      balance_tasks-Quiet i [] ps w calm q = q
      balance_tasks-Quiet i (t ∷ r) ps w calm q = elim (Bool-cases (str_eq t.id id)) [
        | inr other ↦
            balance_tasks-Quiet (suc i) r (placed i t (fire R f trigger t w).0 ps)
              (fire R f trigger t w).1 calm (fire-Quiet trigger t w calm other q)
        | inl same ↦
            let (x, w', failed, q') = own-fire trigger t w trigger_nowhere same q in
            rw failed (balance_tasks-Quiet (suc i) r (placed i t (err x) ps) w' calm q')
      ]

      publish_to_mq-Quiet :
          (t : Task) (w : World R)
          → str_eq t.id id ≡ false
          → Quiet w
          → Quiet (publish_to_mq R t w).1
      unfolding publish_to_mq command_of
      publish_to_mq-Quiet t w other q = by_link (head_link w.links)
        where
          by_link : (l : Link) → Quiet (send_mq_on {R = R} l (command_of t) w).1
          by_link up = (q.0, rw other (omega (arith, q.1)))
          by_link down = q
          by_link lost = (q.0, rw other (omega (arith, q.1)))

      pub execute_task-Quiet :
          (frac jitter : ℕ) (p : P) (t : Task) (w : World R)
          → IsCalm f dispatch
          → Quiet w
          → Quiet (execute_task R f frac jitter p t w).1
      unfolding execute_task remove_from_pending
      execute_task-Quiet frac jitter p t w calm q = elim (Bool-cases (str_eq t.id id)) [
        | inl same ↦
            let (x, w', failed, q') = own-fire dispatch t w dispatch_nowhere same q in rw failed q'
        | inr other ↦
            fired (fire R f dispatch t w).0 (fire R f dispatch t w).1 other
              (fire-Quiet dispatch t w calm other q)
      ]
        where
          published :
              (r : Res (Unit {0})) (v : World R)
              → Quiet v
              → Quiet
                  ((elim r as (λ _. M R P) [
                    | err e ↦ ret (push (delayed v.now frac jitter t) p)
                    | ok _ ↦ ignore_error (remove_from_pending R t.id) >> ret p
                  ])
                    v).1
          published (err e) v g = g
          published (ok u) v g =
              call-Quiet (λ d. (tt {0}, R.zrem pending_queue t.id d)) v g (simp reads_at g.0)

          fired :
              (r : Res (Unit {0})) (v : World R)
              → str_eq t.id id ≡ false
              → Quiet v
              → Quiet
                  ((elim r as (λ _. M R P) [
                    | err e ↦ ret p
                    | ok _ ↦ do
                      sent ← attempt (publish_to_mq R t)
                      now ← current_time
                      elim sent as (λ _. M R P) [
                        | err e ↦ ret (push (delayed now frac jitter t) p)
                        | ok _ ↦ ignore_error (remove_from_pending R t.id) >> ret p
                      ]
                  ])
                    v).1
          fired (err e) v other g = g
          fired (ok u) v other g =
              published (publish_to_mq R t v).0 (publish_to_mq R t v).1
                (publish_to_mq-Quiet t v other g)
