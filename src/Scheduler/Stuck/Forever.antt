-- ===== src/Scheduler/Stuck/Forever.antt =====
-- A job in RETRY is not run again while a scheduler leads, by its rounds.
use Prim.Native.String.{String}
use go_flash_job.Base.{
  ℕ, ◌%◌, ◌≡◌, refl, ap, ◌∙◌, inl, inr, ◌||◌, Option, some, List, [], ◌∷◌, ◌==◌, Bool-cases, length,
  ℤ, ◌+ℤ◌, ◌-ℤ◌, count,
}
use go_flash_job.Model.{
  TaskStatus, pending, ready, dispatched, running, success, retry, dead, unknown, trigger, dispatch,
  Task,
}
use go_flash_job.Redis.{global_queue, pending_queue, HKey, Value, status, Redis}
use go_flash_job.Redis.World.{Res, ok, err, World, M, ret, ◌>>=◌, call, read}
use go_flash_job.Redis.Laws.{reads_at}
use go_flash_job.Status.{status_field}
use go_flash_job.Detail.{detail_field}
use go_flash_job.Fsm.{Fsm, legal_transitions, find_transition}
use go_flash_job.Processor.{P}
use go_flash_job.Scheduler.{
  preload_window, recover_pending_batch, recover_pending_timeout, parse_pairs, any_aged,
  fetch_expired, load_tasks, load_details, parse_tasks, store_aged, apply_aging, balance_tasks,
  fetch_round, requeue, requeue_all, recover_up_to, recover_stale_pending,
}
use go_flash_job.Scheduler.Queues.{move_hashes}
use go_flash_job.Scheduler.Placed.{store_aged-status}
use go_flash_job.Scheduler.Stuck.{
  Happening, fetches, requeues, executes, meets, happens, all_happen, is_for, Quiet, call-Quiet,
  bind-Quiet, IsCalm, balance_tasks-Quiet, execute_task-Quiet,
}

module _ (R : Redis) (id : String) (n : ℕ) where
  module _ (f : Fsm R) (legal : f.transitions ≡ legal_transitions) where
    load_details-Quiet :
        (l : List (String × ℤ)) (w : World R) → Quiet R id n w → Quiet R id n (load_details R l w).1
    unfolding load_details
    load_details-Quiet l w q =
        let got = read {R = R} (λ d i. detail_field R d i) w in
        by_reply got.0 got.1 (call-Quiet R id n (λ d. ((λ i. detail_field R d i), d)) w q q.0)
      where
        by_reply :
            (r : Res (String → Option Value)) (v : World R)
            → Quiet R id n v
            → Quiet R id n
                ((elim r as (λ _. M R (List Task)) [
                  | err e ↦ ret []
                  | ok g ↦ ret (load_tasks R g l)
                ])
                  v).1
        by_reply (err e) v g = g
        by_reply (ok h) v g = g

    parse_tasks-Quiet :
        (reply : List Value) (w : World R) → Quiet R id n w → Quiet R id n (parse_tasks R reply w).1
    unfolding parse_tasks
    parse_tasks-Quiet reply w q = elim (Bool-cases (length reply == 0 || length reply % 2 == 1)) [
      | inl e ↦ rw e q
      | inr e ↦ elim (Bool-cases (length (parse_pairs reply) == 0)) [
        | inl z ↦ rw (e, z) q
        | inr z ↦ rw (e, z) (load_details-Quiet (parse_pairs reply) w q)
      ]
    ]

    apply_aging-Quiet :
        (ts : List Task) (w : World R) → Quiet R id n w → Quiet R id n (apply_aging R ts w).1
    unfolding apply_aging
    apply_aging-Quiet ts w q = elim (Bool-cases (any_aged w.now ts)) [
      | inl e ↦ rw e (
          call-Quiet R id n (λ d. (tt {0}, store_aged R w.now ts d)) w q
            (store_aged-status R w.now ts w.db id ∙ q.0))
      | inr e ↦ rw e q
    ]

    fetch_round-Quiet :
        (ps : List P) (w : World R)
        → IsCalm R id n f trigger
        → Quiet R id n w
        → Quiet R id n (fetch_round R f ps w).1
    unfolding fetch_round fetch_expired
    fetch_round-Quiet ps w calm q =
        let top = w.now +ℤ preload_window in
        let got = call {R = R} (fetch_expired R top) w in
        by_reply got.0 got.1 (
          call-Quiet R id n (fetch_expired R top) w q (
            ap (λ g. g (HKey.task_state id) "status")
              (move_hashes R (R.zrange w.db global_queue (some top)) w.db)
            ∙ q.0))
      where
        by_reply :
            (r : Res (List Value)) (v : World R)
            → Quiet R id n v
            → Quiet R id n
                ((elim r as (λ _. M R (List P)) [
                  | err e ↦ ret ps
                  | ok items ↦ do
                    tasks ← parse_tasks R items
                    aged ← apply_aging R tasks
                    balance_tasks R f 0 aged ps
                ])
                  v).1
        by_reply (err e) v g = g
        by_reply (ok items) v g =
            bind-Quiet R id n (parse_tasks R items v) _ (parse_tasks-Quiet items v g) (λ tasks u k.
              bind-Quiet R id n (apply_aging R tasks u) _ (apply_aging-Quiet tasks u k)
                (λ aged z h. balance_tasks-Quiet R id n f legal 0 aged ps z calm h))

    requeue-status :
        (now : ℤ) (l : List (String × ℤ)) (d : R.Db)
        → status_field R (requeue R now l d) id ≡ status_field R d id
    unfolding requeue
    requeue-status now [] d = refl
    requeue-status now ((m, s) ∷ r) d = requeue-status now r _ ∙ simp reads_at

    requeue_all-Quiet :
        (l : List (String × ℤ)) (w : World R) → Quiet R id n w → Quiet R id n (requeue_all R l w).1
    unfolding requeue_all
    requeue_all-Quiet l w q = elim (Bool-cases (length l == 0)) [
      | inl e ↦ rw e q
      | inr e ↦ rw e (
          call-Quiet R id n (λ d. (tt {0}, requeue R w.now l d)) w q
            (requeue-status w.now l w.db ∙ q.0))
    ]

    recover_stale_pending-Quiet :
        (w : World R) → Quiet R id n w → Quiet R id n (recover_stale_pending R w).1
    unfolding recover_stale_pending recover_up_to
    recover_stale_pending-Quiet w q =
        let top = some (w.now -ℤ recover_pending_timeout) in
        bind-Quiet R id n
          (read {R = R} (λ d. R.zrange_limit recover_pending_batch d pending_queue top) w)
          (requeue_all R)
          (call-Quiet R id n (λ d. (R.zrange_limit recover_pending_batch d pending_queue top, d)) w
            q q.0)
          (λ l v g. requeue_all-Quiet l v g)

    module _ (calm : IsCalm R id n f trigger) (calm_too : IsCalm R id n f dispatch) where
      happens-Quiet :
          (h : Happening) (ps : List P) (w : World R)
          → Quiet R id n w
          → Quiet R id n (happens R f h (ps, w)).1
      unfolding happens
      happens-Quiet (fetches now l) ps w q = fetch_round-Quiet ps (meets R now l w) calm q
      happens-Quiet (requeues now l) ps w q = recover_stale_pending-Quiet (meets R now l w) q
      happens-Quiet (executes now l frac jitter p t) ps w q =
          execute_task-Quiet R id n f legal frac jitter p t (meets R now l w) calm_too q

      all_happen-Quiet :
          (hs : List Happening) (s : List P × World R)
          → Quiet R id n s.1
          → Quiet R id n (all_happen R f hs s).1
      unfolding all_happen
      all_happen-Quiet [] s q = q
      all_happen-Quiet (h ∷ hs) s q =
          all_happen-Quiet hs (happens R f h s) (happens-Quiet h s.0 s.1 q)

-- TRIGGER leads to READY only, and DISPATCH to DISPATCHED.
trigger_target :
    (a b : TaskStatus) → find_transition legal_transitions a trigger ≡ some b → b ≡ ready
unfolding find_transition legal_transitions
trigger_target pending b h = cc
trigger_target ready b h = absurd cc
trigger_target dispatched b h = absurd cc
trigger_target running b h = absurd cc
trigger_target success b h = absurd cc
trigger_target retry b h = absurd cc
trigger_target dead b h = absurd cc
trigger_target (unknown s) b h = absurd cc

dispatch_target :
    (a b : TaskStatus) → find_transition legal_transitions a dispatch ≡ some b → b ≡ dispatched
unfolding find_transition legal_transitions
dispatch_target pending b h = absurd cc
dispatch_target ready b h = cc
dispatch_target dispatched b h = absurd cc
dispatch_target running b h = absurd cc
dispatch_target success b h = absurd cc
dispatch_target retry b h = absurd cc
dispatch_target dead b h = absurd cc
dispatch_target (unknown s) b h = absurd cc

-- With the legal table and no hooks on READY and DISPATCHED: while a scheduler leads, a job in
-- RETRY stays in RETRY, and no message for it is ever published, through any sequence of rounds
-- of fetcherLoop, of executeTask on any tasks and of recoverStalePendingLoop, at any times and
-- over any network.
pub all_happen-retry :
    (R : Redis) (f : Fsm R) (id : String) (hs : List Happening) (ps : List P) (w : World R)
    → f.transitions ≡ legal_transitions
    → f.hooks ready ≡ []
    → f.hooks dispatched ≡ []
    → status_field R w.db id ≡ some (status retry)
    → let w' = (all_happen R f hs (ps, w)).1 in
      (status_field R w'.db id ≡ some (status retry))
      × (count (is_for id) w'.mq ≡ count (is_for id) w.mq)
all_happen-retry R f id hs ps w legal quiet quiet_too stored =
    all_happen-Quiet R id (count (is_for id) w.mq) f legal
      (λ a b found. rw (trigger_target a b (rw legal at found)) quiet)
      (λ a b found. rw (dispatch_target a b (rw legal at found)) quiet_too) hs (ps, w)
      (stored, refl)
