-- ===== src/Fsm/Race.antt =====
-- Concurrent and impossible calls of Fire, and the indexes that it keeps.
use Prim.Native.String.{String}
use text.Mathlib.TextPositions.{eq_refl}
use go_flash_job.Base.{
  ◌≡◌, refl, sym, ap, ◌∙◌, ◌≢◌, List, ◌∷◌, true, false, Option, none, some, arith, ℤ,
}
use go_flash_job.Model.{TaskStatus, pending, Task, Event, Error, illegal_transition}
use go_flash_job.Redis.{status, Redis}
use go_flash_job.Redis.World.{
  Link, up, Res, ok, err, World, M, fail_with, continue_with, call_keeps,
}
use go_flash_job.Status.{
  status_eq, is_terminal, status_eq_refl, as_status, status_field, set_status,
}
use go_flash_job.Status.Writes.{IsIndexed, set_status-IsIndexed}
use go_flash_job.Fsm.{
  legal_transitions, find_transition, Fsm, state_or_pending, get_state, fire_to, fire_from, fire,
  save_state,
}
use go_flash_job.Fsm.Fire.{AllKeep, fire_to-ok, fire-ok, get_state-err, get_state-ok}

-- No legal transition leads back to the status it starts from.
legal_moves :
    (s : TaskStatus) (e : Event) {b : TaskStatus}
    → find_transition legal_transitions s e ≡ some b
    → status_eq b s ≡ false
unfolding find_transition legal_transitions
legal_moves s e h = ground arith

-- The terminal statuses have no way out.
legal_terminal :
    (s : TaskStatus) (e : Event)
    → is_terminal s ≡ true
    → find_transition legal_transitions s e ≡ none
unfolding find_transition legal_transitions
legal_terminal s e h = ground arith

module _ (R : Redis) where
  -- With the legal table and hooks that leave the statuses alone: two calls of Fire on one task
  -- that have read the same status do not both succeed. Once the first has moved the task along
  -- a legal transition, the second fails on that database, whatever its copy of the task, the
  -- network and the status that it was about to write are.
  pub fire_race :
      (f : Fsm R) (e : Event) (t t' : Task) (a b b' : TaskStatus) (w w₁ w₂ : World R)
      → AllKeep R (f.hooks b)
      → AllKeep R (f.hooks b')
      → f.transitions ≡ legal_transitions
      → find_transition f.transitions a e ≡ some b
      → fire_to R f t a b w ≡ (ok tt, w₁)
      → t'.id ≡ t.id
      → w₂.db ≡ w₁.db
      → (fire_to R f t' a b' w₂).0 ≢ ok tt
  fire_race f e t t' a b b' w w₁ w₂ keep keep' legal found first same seen second =
      let (v, p, q, all) = fire_to-ok R f t a b w keep first in
      let (v', p', q', all') =
        fire_to-ok R f t' a b' w₂ keep' (λ i. (second i, (fire_to R f t' a b' w₂).1)) in
      let moved : status_eq b a ≡ false = legal_moves a e (rw (← legal) found) in
      let stored : status_field R w₁.db t'.id ≡ some (status b) = rw same (all t.id ∙ rw eq_refl) in
      let twice : some v' ≡ some (status b) = sym p' ∙ rw seen stored in
      let back : b ≡ a = sym (ap as_status twice) ∙ q' in
      ground (arith, moved, back, status_eq_refl a)

  never_fired :
      (f : Fsm R) (e : Event) (t : Task) (w : World R)
      → ((s : TaskStatus) → AllKeep R (f.hooks s))
      → status_field R w.db t.id ≡ none
      → (fire R f e t w).0 ≢ ok tt
  never_fired f e t w keep missing h =
      let (v, b, p, found, rest) =
        fire-ok R f e t w (fire R f e t w).1 keep (λ i. (h i, (fire R f e t w).1)) in
      cc

  -- If the hooks leave the statuses alone, Fire never succeeds on a task that has no stored
  -- status, whatever the event, the table and the network; but over a call that gets through,
  -- GetState answers that the task is pending.
  pub fire_missing :
      (f : Fsm R) (e : Event) (t : Task) (w : World R)
      → ((s : TaskStatus) → AllKeep R (f.hooks s))
      → status_field R w.db t.id ≡ none
      → ((fire R f e t w).0 ≢ ok tt)
        × ((l : List Link) → w.links ≡ up ∷ l → (get_state R t.id w).0 ≡ ok pending)
  unfolding get_state
  fire_missing f e t w keep missing =
      (never_fired f e t w keep missing, λ l on. rw (on, missing) refl)

  -- With the legal table and hooks that leave the statuses alone, Fire never succeeds on a task
  -- with a stored terminal status.
  pub fire_terminal :
      (f : Fsm R) (e : Event) (t : Task) (w : World R) (s : TaskStatus)
      → ((s : TaskStatus) → AllKeep R (f.hooks s))
      → f.transitions ≡ legal_transitions
      → status_field R w.db t.id ≡ some (status s)
      → is_terminal s ≡ true
      → (fire R f e t w).0 ≢ ok tt
  fire_terminal f e t w s keep legal stored end h =
      let (v, b, p, found, rest) =
        fire-ok R f e t w (fire R f e t w).1 keep (λ i. (h i, (fire R f e t w).1)) in
      let same : some v ≡ some (status s) = sym p ∙ stored in
      let stuck = legal_terminal s e end in
      let read : as_status (some v) ≡ s = ap as_status same in
      let target : find_transition legal_transitions s e ≡ some b = rw (legal, read) at found in
      cc (stuck, target)

  set_status-keeps_IsIndexed :
      (t : Task) (b : TaskStatus) (now : ℤ) (d : R.Db)
      → ((id : String) → IsIndexed R d id)
      → (id : String) → IsIndexed R (set_status R t b now d) id
  set_status-keeps_IsIndexed t b now d h id = set_status-IsIndexed R d t b now id (h id)

  -- saveState keeps every task in the index of its status, whatever the network does.
  pub save_state-IsIndexed :
      (t : Task) (s : TaskStatus) (w : World R)
      → ((id : String) → IsIndexed R w.db id)
      → (id : String) → IsIndexed R (save_state R t s w).1.db id
  unfolding save_state
  save_state-IsIndexed t s w h id =
      call_keeps R (λ d. IsIndexed R d id) (λ d. (tt {0}, set_status R t s w.now d)) w (h id)
        (set_status-keeps_IsIndexed t s w.now w.db h id)

  get_state-mq :
      (id : String) (w : World R) (r : Res TaskStatus) (w' : World R)
      → get_state R id w ≡ (r, w')
      → w'.mq ≡ w.mq
  unfolding get_state
  get_state-mq id w r w' h = ground arith

  illegal_from :
      (f : Fsm R) (e : Event) (t : Task) (w : World R) (r : Res TaskStatus × World R)
      → get_state R t.id w ≡ r
      → find_transition f.transitions (state_or_pending R (status_field R w.db t.id)) e ≡ none
      → (x : Error) × (w' : World R) × (continue_with r (fire_from R f e t) ≡ (err x, w'))
        × (w'.db ≡ w.db)
        × (w'.mq ≡ w.mq)
  unfolding fire_from
  illegal_from f e t w (err x, w₁) g h =
      (x, w₁, refl, get_state-err R t.id w x w₁ g, get_state-mq t.id w (err x) w₁ g)
  illegal_from f e t w (ok a, w₁) g h =
      let (same, kept) = get_state-ok R t.id w a w₁ g in
      let stuck : find_transition f.transitions a e ≡ none = rw same h in
      (
        illegal_transition a e,
        w₁,
        ap (λ o. fire_target o w₁) stuck,
        kept,
        get_state-mq t.id w (ok a) w₁ g,
      )
    where
      fire_target : Option TaskStatus → M R (Unit {0})
      fire_target o = elim o [
        | none ↦ fail_with (illegal_transition a e)
        | some target ↦ fire_to R f t a target
      ]

  -- Fire with an event that the task's status has no transition for fails and changes nothing.
  pub fire_illegal :
      (f : Fsm R) (e : Event) (t : Task) (w : World R)
      → find_transition f.transitions (state_or_pending R (status_field R w.db t.id)) e ≡ none
      → (x : Error) × (w' : World R) × (fire R f e t w ≡ (err x, w'))
        × (w'.db ≡ w.db)
        × (w'.mq ≡ w.mq)
  unfolding fire
  fire_illegal f e t w h = illegal_from f e t w (get_state R t.id w) refl h
