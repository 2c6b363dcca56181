-- ===== src/Fsm/Legal.antt =====
-- scheduler/internal/core/fsm.go: Fire against the list of legal moves of the state machine.
use Prim.Native.String.{String}
use text.Mathlib.Text.{◌==◌ as str_eq}
use go_flash_job.Base.{
  ◌≡◌, refl, sym, ap, ◌∙◌, ◌⊎◌, inl, inr, true, none, some, [], arith, if◌then◌else◌, Option-cases,
}
use go_flash_job.Model.{
  TaskStatus, pending, ready, dispatched, running, success, retry, dead, Task, Event, trigger,
  dispatch, start, succeed, fail, retry_event, Error,
}
use go_flash_job.Redis.{status, Redis}
use go_flash_job.Redis.World.{ok, err, World}
use go_flash_job.Status.{status_eq→≡, as_status, status_field}
use go_flash_job.Fsm.{
  event_eq, state_or_pending, Transition, legal_transitions, find_transition, Fsm, get_state,
  fire_to, fire_from, fire,
}
use go_flash_job.Fsm.Table.{Has, found_entry}
use go_flash_job.Fsm.Fire.{AllKeep, run_hooks-keep, fire-ok}
use go_flash_job.Fsm.Race.{fire_illegal}
use go_flash_job.Fsm.Up.{cas_script_up, online}

-- The moves of a task's life.
pub data Legal : TaskStatus → Event → TaskStatus → Type 0 where
  triggered : Legal pending trigger ready
  handed_on : Legal ready dispatch dispatched
  started : Legal dispatched start running
  succeeded : Legal running succeed success
  failed : Legal running fail retry
  retried : Legal retry retry_event ready
  given_up : Legal retry fail dead

event_eq→≡ : (a b : Event) → event_eq a b ≡ true → a ≡ b
event_eq→≡ a b h = ground arith

entry-Legal : (t : Transition) → Has t legal_transitions → Legal t.source t.event t.target
unfolding legal_transitions
entry-Legal t (inl p) = rw (← p) triggered
entry-Legal t (inr (inl p)) = rw (← p) handed_on
entry-Legal t (inr (inr (inl p))) = rw (← p) started
entry-Legal t (inr (inr (inr (inl p)))) = rw (← p) succeeded
entry-Legal t (inr (inr (inr (inr (inl p))))) = rw (← p) failed
entry-Legal t (inr (inr (inr (inr (inr (inl p)))))) = rw (← p) retried
entry-Legal t (inr (inr (inr (inr (inr (inr (inl p))))))) = rw (← p) given_up
entry-Legal t (inr (inr (inr (inr (inr (inr (inr p))))))) = absurd p

found-Legal :
    (s : TaskStatus) (e : Event) {b : TaskStatus}
    → find_transition legal_transitions s e ≡ some b
    → Legal s e b
found-Legal s e {b} h =
    let (t, m, fits, target) = found_entry legal_transitions s e h in
    let from : t.source ≡ s = status_eq→≡ t.source s (ground arith) in
    let on : t.event ≡ e = event_eq→≡ t.event e (ground arith) in
    rw (from, on, target) at (entry-Legal t m)

Legal-found :
    {s b : TaskStatus} {e : Event} → Legal s e b → find_transition legal_transitions s e ≡ some b
unfolding find_transition legal_transitions
Legal-found triggered = refl
Legal-found handed_on = refl
Legal-found started = refl
Legal-found succeeded = refl
Legal-found failed = refl
Legal-found retried = refl
Legal-found given_up = refl

module _ (R : Redis) where
  -- The task `t` has status `b` now, and every other status is as before.
  abbrev pub MovesOne : Task → TaskStatus → R.Db → R.Db → Type 0
  MovesOne t b d d' =
      (id : String)
      → status_field R d' id ≡ (if str_eq t.id id then some (status b) else status_field R d id)

  module _ (f : Fsm R) (e : Event) (t : Task) (w : World R) (s : TaskStatus)
      (keep : (s : TaskStatus) → AllKeep R (f.hooks s)) (legal : f.transitions ≡ legal_transitions)
      (stored : status_field R w.db t.id ≡ some (status s)) where
    fired-Legal :
        (w' : World R)
        → fire R f e t w ≡ (ok tt, w')
        → (b : TaskStatus) × Legal s e b × MovesOne t b w.db w'.db
    fired-Legal w' h =
        let (v, b, p, found, all) = fire-ok R f e t w w' keep h in
        let same : as_status (some v) ≡ s = ap as_status (sym p ∙ stored) in
        (b, found-Legal s e (rw (legal, same) at found), all)

    reads : w.links ≡ [] → get_state R t.id w ≡ (ok s, online w)
    unfolding get_state
    reads on = rw (on, stored) refl

    moves : (b : TaskStatus) → (fire_to R f t s b (online w)).0 ≡ ok tt
    unfolding fire_to
    moves b =
        rw (cas_script_up R t w s [] stored b) (run_hooks-keep R (f.hooks b) t _ t.id (keep b)).1

    legal-fires : (b : TaskStatus) → w.links ≡ [] → Legal s e b → (fire R f e t w).0 ≡ ok tt
    unfolding fire fire_from
    legal-fires b on move = rw (reads on, fire_from, legal, Legal-found move) (moves b)

    -- With the legal table and hooks that leave the statuses alone, for a task with a stored
    -- status: whatever the network does, if Fire succeeds then it has made one of the seven
    -- legal moves from that status for its event, on this task and on no other. With the network
    -- up it makes the move if there is one, and else fails and leaves the database as it is.
    pub fire-legal :
        ((w' : World R)
          → fire R f e t w ≡ (ok tt, w')
          → (b : TaskStatus) × Legal s e b × MovesOne t b w.db w'.db)
        × (w.links ≡ []
            → ((b : TaskStatus) × Legal s e b
                × ((fire R f e t w).0 ≡ ok tt)
                × MovesOne t b w.db (fire R f e t w).1.db)
              ⊎ (((b : TaskStatus) → ¬ Legal s e b)
                  × ((x : Error) × (fire R f e t w).0 ≡ err x)
                  × ((fire R f e t w).1.db ≡ w.db)))
    fire-legal = (
      fired-Legal,
      λ on. elim (Option-cases (find_transition legal_transitions s e)) [
        | inl none_found ↦
            let stuck : find_transition f.transitions
                  (state_or_pending R (status_field R w.db t.id)) e
                ≡ none =
              rw (legal, stored) none_found in
            let (x, w', ran, kept, sent) = fire_illegal R f e t w stuck in
            inr (
              λ b move. let found = Legal-found move in cc,
              (x, ap (λ r. r.0) ran),
              ap (λ r. r.1.db) ran ∙ kept,
            )
        | inr (b, found) ↦
            let done = legal-fires b on (found-Legal s e found) in
            let (b', move, all) =
              fired-Legal (fire R f e t w).1 (λ i. (done i, (fire R f e t w).1)) in
            inl (b', move, done, all)
      ],
    )
