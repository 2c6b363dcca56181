-- ===== src/Scheduler/Placed.antt =====
-- A round of fetcherLoop while the network is up: every due job is given to a processor.
use Prim.Native.String.{String}
use text.Mathlib.Text.{◌==◌ as str_eq}
use go_flash_job.Base.{
  ℕ, suc, ◌+◌, ◌%◌, ◌≡◌, refl, ap, ◌∙◌, inl, inr, false, ◌||◌, Option, some, List, [], ◌∷◌, map,
  arith, ◌==◌, if◌then◌else◌, Bool-cases, length, ℤ, ◌+ℤ◌,
}
use go_flash_job.Model.{TaskStatus, pending, ready, trigger, Task}
use go_flash_job.Redis.{global_queue, HKey, Value, plain, int, Redis}
use go_flash_job.Redis.World.{ok, World}
use go_flash_job.Redis.Laws.{reads_at}
use go_flash_job.Status.{status_field, set_status}
use go_flash_job.Status.Writes.{status-set_status}
use go_flash_job.Detail.{detail_field}
use go_flash_job.Fsm.{Fsm, legal_transitions, find_transition}
use go_flash_job.Fsm.Up.{fire-online, online}
use go_flash_job.Processor.{P}
use go_flash_job.Scheduler.{
  preload_window, flat_reply, is_aged, age, any_aged, placed, move_expired, fetch_expired,
  load_tasks, load_details, parse_tasks, store_aged, apply_aging, balance_tasks, fetch_round,
}
use go_flash_job.Scheduler.Queues.{parse_pairs-flat_reply, move_hashes}
use go_flash_job.Scheduler.Dispatch.{AllHave}

-- The tasks on the processors in turn, from index `i` on.
abbrev pub place_all : ℕ → List Task → List P → List P
place_all i [] ps = ps
place_all i (t ∷ r) ps = place_all (suc i) r (placed i t (ok tt) ps)

abbrev pub NotOf : String → List Task → Type 0
NotOf id [] = Unit
NotOf id (t ∷ r) = (str_eq id t.id ≡ false) × NotOf id r

-- No two tasks have the same id.
abbrev pub DistinctIds : List Task → Type 0
DistinctIds [] = Unit
DistinctIds (t ∷ r) = NotOf t.id r × DistinctIds r

module _ (R : Redis) where
  abbrev pub all_ready : ℤ → List Task → R.Db → R.Db
  all_ready now [] d = d
  all_ready now (t ∷ r) d = all_ready now r (set_status R t ready now d)

  NotOf-AllHave :
      (t : Task) (s : TaskStatus) (now : ℤ) (r : List Task) (d : R.Db)
      → NotOf t.id r
      → AllHave R pending d r
      → AllHave R pending (set_status R t s now d) r
  NotOf-AllHave t s now [] d n h = tt
  NotOf-AllHave t s now (u ∷ r) d n h =
      (status-set_status R d t s now u.id ∙ rw n.0 h.0, NotOf-AllHave t s now r d n.1 h.1)

  trigger_pending :
      (f : Fsm R)
      → f.transitions ≡ legal_transitions
      → find_transition f.transitions pending trigger ≡ some ready
  unfolding find_transition legal_transitions
  trigger_pending f legal = rw legal refl

  -- The database after applyAging.
  abbrev pub aged_db : ℤ → List Task → R.Db → R.Db
  aged_db now ts d = if any_aged now ts then store_aged R now ts d else d

  apply_aging-online :
      (ts : List Task) (w : World R)
      → apply_aging R ts (online w)
        ≡ (ok (map (age w.now) ts), online (record w { db = aged_db w.now ts w.db }))
  unfolding apply_aging
  apply_aging-online ts w = elim (Bool-cases (any_aged w.now ts)) [
    | inl e ↦ rw e refl
    | inr e ↦ rw e refl
  ]

  -- The tasks of the due jobs whose details are there.
  abbrev pub due_tasks : R.Db → List (String × ℤ) → List Task
  due_tasks d l = load_tasks R (λ m. detail_field R d m) l

  length-flat_reply : (l : List (String × ℤ)) → length (flat_reply l) ≡ length l + length l
  length-flat_reply [] = refl
  length-flat_reply (x ∷ l) = omega (arith, length-flat_reply l)

  parse_tasks-online :
      (l : List (String × ℤ)) (w : World R)
      → parse_tasks R (flat_reply l) (online w) ≡ (ok (due_tasks w.db l), online w)
  unfolding parse_tasks load_tasks load_details
  parse_tasks-online [] w = refl
  parse_tasks-online ((m, s) ∷ l) w =
      let reply : List Value = plain m ∷ int s ∷ flat_reply l in
      let even : (length reply == 0 || length reply % 2 == 1) ≡ false =
        ground (arith, length-flat_reply l) in
      let some_left : (suc (length l) == 0) ≡ false = ground arith in
      rw (even, parse_pairs-flat_reply l, some_left)
        (ap (λ p. load_details R p (online w)) (parse_pairs-flat_reply ((m, s) ∷ l)))

  AllHave-same :
      (ts : List Task) (d d' : R.Db)
      → ((id : String) → status_field R d' id ≡ status_field R d id)
      → AllHave R pending d ts
      → AllHave R pending d' ts
  AllHave-same [] d d' e h = tt
  AllHave-same (t ∷ r) d d' e h = (e t.id ∙ h.0, AllHave-same r d d' e h.1)

  pub store_aged-status :
      (now : ℤ) (ts : List Task) (d : R.Db) (id : String)
      → status_field R (store_aged R now ts d) id ≡ status_field R d id
  unfolding store_aged
  store_aged-status now [] d id = refl
  store_aged-status now (t ∷ r) d id = elim (Bool-cases (is_aged now t)) [
    | inl e ↦ rw e (store_aged-status now r _ id ∙ simp reads_at)
    | inr e ↦ rw e (store_aged-status now r d id)
  ]

  aged_db-status :
      (now : ℤ) (ts : List Task) (d : R.Db) (id : String)
      → status_field R (aged_db now ts d) id ≡ status_field R d id
  aged_db-status now ts d id = elim (Bool-cases (any_aged now ts)) [
    | inl e ↦ rw e (store_aged-status now ts d id)
    | inr e ↦ rw e refl
  ]

  -- What a round leaves while the network is up.
  abbrev pub round_db : ℤ → R.Db → R.Db
  round_db now d =
      let l = R.zrange d global_queue (some (now +ℤ preload_window)) in
      let ts = due_tasks d l in
      all_ready now (map (age now) ts) (aged_db now ts (move_expired R l d))

  module _ (f : Fsm R) (legal : f.transitions ≡ legal_transitions)
      (quiet : f.hooks ready ≡ []) where
    balance_tasks-places :
        (i : ℕ) (ts : List Task) (ps : List P) (w : World R)
        → AllHave R pending w.db ts
        → DistinctIds ts
        → balance_tasks R f i ts ps (online w)
          ≡ (ok (place_all i ts ps), online (record w { db = all_ready w.now ts w.db }))
    unfolding balance_tasks
    balance_tasks-places i [] ps w h n = refl
    balance_tasks-places i (t ∷ r) ps w h n =
        let w' : World R = record w { db = set_status R t ready w.now w.db } in
        rw (fire-online R f trigger t pending ready w h.0 (trigger_pending f legal) quiet) (
          balance_tasks-places (suc i) r (placed i t (ok tt) ps) w'
            (NotOf-AllHave t ready w.now r w.db n.0 h.1) n.1)

    pub fetch_round-runs :
        (ps : List P) (w : World R)
        → let l = R.zrange w.db global_queue (some (w.now +ℤ preload_window)) in
          let ts = map (age w.now) (due_tasks w.db l) in
          AllHave R pending w.db ts
          → DistinctIds ts
          → fetch_round R f ps (online w)
            ≡ (ok (place_all 0 ts ps), online (record w { db = round_db w.now w.db }))
    unfolding fetch_round fetch_expired
    fetch_round-runs ps w h n =
        let l = R.zrange w.db global_queue (some (w.now +ℤ preload_window)) in
        let w₁ : World R = record w { db = move_expired R l w.db } in
        let ts = due_tasks w.db l in
        let same : due_tasks w₁.db l ≡ ts =
          ap
            (λ (g : HKey → String → Option Value).
              load_tasks R (λ m. g (HKey.task_detail m) "data") l)
            (move_hashes R l w.db) in
        let w₂ : World R = record w₁ { db = aged_db w.now ts w₁.db } in
        let kept : AllHave R pending w₂.db (map (age w.now) ts) =
          AllHave-same (map (age w.now) ts) w.db w₂.db
            (λ id.
              aged_db-status w.now ts w₁.db id
              ∙ ap (λ g. g (HKey.task_state id) "status") (move_hashes R l w.db))
            h in
        rw (parse_tasks-online l w₁) (
          rw same (
            rw (apply_aging-online ts w₁)
              (balance_tasks-places 0 (map (age w.now) ts) ps w₂ kept n)))
