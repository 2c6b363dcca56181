-- ===== src/Scheduler/Rounds.antt =====
-- A whole round of fetcherLoop: no job is lost, however its calls end.
use Prim.Native.String.{String}
use go_flash_job.Base.{
  ℕ, suc, ◌%◌, ◌≡◌, refl, ◌∙◌, inl, inr, true, false, ◌||◌, Option, some, List, [], ◌∷◌, ◌==◌,
  Bool-cases, Option-cases, length, ℤ, ◌+ℤ◌,
}
use go_flash_job.Model.{TaskStatus, Task, Event, trigger}
use go_flash_job.Redis.{
  ZKey, global_queue, pending_queue, active_tasks, terminal_tasks, Value, zkey_eq, Redis,
}
use go_flash_job.Redis.World.{
  Res, ok, err, World, M, ret, ◌>>=◌, call, read, call_keeps, bind_keeps,
}
use go_flash_job.Status.{status_eq, is_terminal, as_status, status_field, set_status}
use go_flash_job.Detail.{detail_field}
use go_flash_job.Redis.Laws.{reads_at}
use go_flash_job.Fsm.{
  find_transition, Hook, Fsm, cas_script, get_state, run_hooks, fire_to, fire_from, fire,
}
use go_flash_job.Processor.{P}
use go_flash_job.Scheduler.{
  preload_window, parse_pairs, is_aged, any_aged, placed, fetch_expired, load_tasks, load_details,
  parse_tasks, store_aged, apply_aging, balance_tasks, fetch_round,
}
use go_flash_job.Scheduler.Recover.{is_queued, move_expired-is_queued}

module _ (R : Redis) (m : String) where
  -- The job `m` is in the global or in the pending queue.
  abbrev pub IsQueued : R.Db → Type 0
  IsQueued d = is_queued R d m ≡ true

  same_queues :
      (d d' : R.Db)
      → R.zscore d' global_queue m ≡ R.zscore d global_queue m
      → R.zscore d' pending_queue m ≡ R.zscore d pending_queue m
      → IsQueued d
      → IsQueued d'
  same_queues d d' g p h = rw (g, p) h

  -- The hook leaves the queues alone.
  abbrev HookQueues : Hook R → Type 0
  HookQueues hook = (t : Task) (w : World R) → IsQueued w.db → IsQueued (hook t w).1.db

  abbrev pub AllQueues : List (Hook R) → Type 0
  AllQueues [] = Unit
  AllQueues (hook ∷ r) = HookQueues hook × AllQueues r

  set_status-IsQueued :
      (t : Task) (s : TaskStatus) (now : ℤ) (d : R.Db)
      → IsQueued d
      → IsQueued (set_status R t s now d)
  unfolding set_status
  set_status-IsQueued t s now d h =
      same_queues d (set_status R t s now d) (keep global_queue refl refl)
        (keep pending_queue refl refl) h
    where
      keep :
          (k : ZKey)
          → zkey_eq active_tasks k ≡ false
          → zkey_eq terminal_tasks k ≡ false
          → R.zscore (set_status R t s now d) k m ≡ R.zscore d k m
      keep k a b = elim (Bool-cases (is_terminal s)) [
        | inl e ↦ rw e (simp reads_at (rw (a, b)))
        | inr e ↦ rw e (simp reads_at (rw a))
      ]

  cas_script-IsQueued :
      (a b : TaskStatus) (t : Task) (now : ℤ) (d : R.Db)
      → IsQueued d
      → IsQueued (cas_script R a b t now d).1
  unfolding cas_script
  cas_script-IsQueued a b t now d h = elim (Option-cases (status_field R d t.id)) [
    | inl e ↦ rw (e, cas_script) h
    | inr (v, e) ↦ elim (Bool-cases (status_eq (as_status (some v)) a)) [
      | inl q ↦ rw (e, cas_script) (rw q (set_status-IsQueued t b now d h))
      | inr q ↦ rw (e, cas_script) (rw q h)
    ]
  ]

  run_hooks-IsQueued :
      (hooks : List (Hook R)) (t : Task) (w : World R)
      → AllQueues hooks
      → IsQueued w.db
      → IsQueued (run_hooks R hooks t w).1.db
  unfolding run_hooks
  run_hooks-IsQueued [] t w k h = h
  run_hooks-IsQueued (hook ∷ r) t w k h = run_hooks-IsQueued r t (hook t w).1 k.1 (k.0 t w h)

  module _ (f : Fsm R) (keep : (s : TaskStatus) → AllQueues (f.hooks s)) where
    fire_to-IsQueued :
        (t : Task) (a b : TaskStatus) (w : World R)
        → IsQueued w.db
        → IsQueued (fire_to R f t a b w).1.db
    unfolding fire_to
    fire_to-IsQueued t a b w h =
        bind_keeps R IsQueued (call {R = R} (cas_script R a b t w.now) w) _
          (call_keeps R IsQueued (cas_script R a b t w.now) w h
            (cas_script-IsQueued a b t w.now w.db h))
          (λ n v g. elim (Bool-cases (n == 0)) [
            | inl e ↦ rw e g
            | inr e ↦ rw e (run_hooks-IsQueued (f.hooks b) t v (keep b) g)
          ])

    fire-IsQueued :
        (e : Event) (t : Task) (w : World R) → IsQueued w.db → IsQueued (fire R f e t w).1.db
    unfolding fire get_state fire_from
    fire-IsQueued e t w h =
        bind_keeps R IsQueued (get_state R t.id w) (fire_from R f e t)
          (bind_keeps R IsQueued (read {R = R} (λ d. status_field R d t.id) w) _
            (call_keeps R IsQueued (λ d. (status_field R d t.id, d)) w h h) (λ v w' g. g))
          (λ a w' g. from a w' g)
      where
        from :
            (a : TaskStatus) (w' : World R)
            → IsQueued w'.db
            → IsQueued (fire_from R f e t a w').1.db
        from a w' g = elim (Option-cases (find_transition f.transitions a e)) [
          | inl none_found ↦ rw (none_found, fire_from) g
          | inr (b, found) ↦ rw (found, fire_from) (fire_to-IsQueued t a b w' g)
        ]

    balance_tasks-IsQueued :
        (i : ℕ) (ts : List Task) (ps : List P) (w : World R)
        → IsQueued w.db
        → IsQueued (balance_tasks R f i ts ps w).1.db
    unfolding balance_tasks
    balance_tasks-IsQueued i [] ps w h = h
    balance_tasks-IsQueued i (t ∷ r) ps w h =
        balance_tasks-IsQueued (suc i) r (placed i t (fire R f trigger t w).0 ps)
          (fire R f trigger t w).1 (fire-IsQueued trigger t w h)

  load_details-IsQueued :
      (l : List (String × ℤ)) (w : World R) → IsQueued w.db → IsQueued (load_details R l w).1.db
  unfolding load_details
  load_details-IsQueued l w h =
      let got = read {R = R} (λ d i. detail_field R d i) w in
      by_reply got.0 got.1 (call_keeps R IsQueued (λ d. ((λ i. detail_field R d i), d)) w h h)
    where
      by_reply :
          (r : Res (String → Option Value)) (v : World R)
          → IsQueued v.db
          → IsQueued
              ((elim r as (λ _. M R (List Task)) [ err e ↦ ret [] | ok f ↦ ret (load_tasks R f l) ])
                v).1.db
      by_reply (err e) v g = g
      by_reply (ok f) v g = g

  parse_tasks-IsQueued :
      (reply : List Value) (w : World R) → IsQueued w.db → IsQueued (parse_tasks R reply w).1.db
  unfolding parse_tasks
  parse_tasks-IsQueued reply w h = elim (Bool-cases (length reply == 0 || length reply % 2 == 1)) [
    | inl e ↦ rw e h
    | inr e ↦ elim (Bool-cases (length (parse_pairs reply) == 0)) [
      | inl q ↦ rw (e, q) h
      | inr q ↦ rw (e, q) (load_details-IsQueued (parse_pairs reply) w h)
    ]
  ]

  pub store_aged-zscore :
      (now : ℤ) (ts : List Task) (d : R.Db) (k : ZKey)
      → R.zscore (store_aged R now ts d) k m ≡ R.zscore d k m
  unfolding store_aged
  store_aged-zscore now [] d k = refl
  store_aged-zscore now (t ∷ r) d k = elim (Bool-cases (is_aged now t)) [
    | inl e ↦ rw e (store_aged-zscore now r _ k ∙ simp reads_at)
    | inr e ↦ rw e (store_aged-zscore now r d k)
  ]

  apply_aging-IsQueued :
      (ts : List Task) (w : World R) → IsQueued w.db → IsQueued (apply_aging R ts w).1.db
  unfolding apply_aging
  apply_aging-IsQueued ts w h = elim (Bool-cases (any_aged w.now ts)) [
    | inl e ↦ rw e (
        call_keeps R IsQueued (λ d. (tt {0}, store_aged R w.now ts d)) w h
          (same_queues w.db (store_aged R w.now ts w.db)
            (store_aged-zscore w.now ts w.db global_queue)
            (store_aged-zscore w.now ts w.db pending_queue) h))
    | inr e ↦ rw e h
  ]

  -- A job in the global or in the pending queue is still in one of them after a round of
  -- fetcherLoop, however its calls end, if the hooks leave the queues alone.
  pub fetch_round-IsQueued :
      (f : Fsm R) (ps : List P) (w : World R)
      → ((s : TaskStatus) → AllQueues (f.hooks s))
      → IsQueued w.db
      → IsQueued (fetch_round R f ps w).1.db
  unfolding fetch_round
  fetch_round-IsQueued f ps w keep h =
      let top = w.now +ℤ preload_window in
      let got = call {R = R} (fetch_expired R top) w in
      by_reply got.0 got.1
        (call_keeps R IsQueued (fetch_expired R top) w h (move_expired-is_queued R top w.db m h))
    where
      by_reply :
          (r : Res (List Value)) (v : World R)
          → IsQueued v.db
          → IsQueued
              ((elim r as (λ _. M R (List P)) [
                | err e ↦ ret ps
                | ok items ↦ do
                  tasks ← parse_tasks R items
                  aged ← apply_aging R tasks
                  balance_tasks R f 0 aged ps
              ])
                v).1.db
      by_reply (err e) v g = g
      by_reply (ok items) v g =
          bind_keeps R IsQueued (parse_tasks R items v) _ (parse_tasks-IsQueued items v g)
            (λ tasks u k.
              bind_keeps R IsQueued (apply_aging R tasks u) _ (apply_aging-IsQueued tasks u k)
                (λ aged z q. balance_tasks-IsQueued f keep 0 aged ps z q))
