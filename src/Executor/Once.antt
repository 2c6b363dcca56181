-- ===== src/Executor/Once.antt =====
-- The dedupe key: how often handleTask calls a callback.
use Prim.Native.String.{String}
use go_flash_job.Base.{
  ℕ, ◌≡◌, refl, ap, ◌∙◌, inl, inr, Bool, true, false, none, some, arith, ℤ, pos, ◌==ℤ◌, ◌+ℤ◌, ◌≤ℤ◌,
  ltb_ℤ, List, [], ◌∷◌, Bool-cases, eq_of_parts, +ℤ_parts,
}
use go_flash_job.Model.{TaskCommand, Error, network}
use go_flash_job.Redis.{exec_dedupe, SKey, skey_eq, Redis}
use go_flash_job.Redis.World.{
  Link, up, down, lost, Res, ok, err, head_link, World, continue_with, attempt,
}
use text.Mathlib.TextPositions.{eq_refl}
use go_flash_job.Executor.{
  Answer, acked, requeued, Response, dedupe_key, dedupe_ttl, is_set, set_if_absent,
  check_and_mark_idempotency, handle_task, handle_checked,
}
use go_flash_job.Redis.World.{bind_keeps}
use text.Mathlib.TextEquality.{eq_iff}
use mathlib.Core.Path.{ap₂, subst}
use go_flash_job.Executor.Marks.{IsMarked, handle_checked-IsMarked}

pub ==ℤ_refl : (n : ℤ) → (n ==ℤ n) ≡ true
==ℤ_refl n = ground arith

skey_eq_refl : (id : String) (n : ℤ) → skey_eq (exec_dedupe id n) (exec_dedupe id n) ≡ true
skey_eq_refl id n = ground (arith, eq_refl id)

skey_eq→≡ : (a b : SKey) → skey_eq a b ≡ true → a ≡ b
skey_eq→≡ (exec_dedupe i n) (exec_dedupe j m) h =
    ap₂ exec_dedupe ((eq_iff i j).0 (ground arith)) (eq_of_parts n m (ground arith))

later_le : (now e u : ℤ) → ltb_ℤ now e ≡ false → u ≤ℤ e → u ≤ℤ (now +ℤ pos 86400)
later_le now e u h le = ground (arith, +ℤ_parts now (pos 86400))

before_le : (now u e : ℤ) → ltb_ℤ now u ≡ true → u ≤ℤ e → ltb_ℤ now e ≡ true
before_le now u e h le = ground arith

module _ (R : Redis) (http : TaskCommand → Response) (frac jitter : ℕ) (cost : ℤ) where
  module _ (c : TaskCommand) where
    -- What the dedupe check gives when the key is set.
    data Refusal (w : World R) : Res (Res Bool) × World R → Type 0 where
      no_reply :
          (x : Error) (w' : World R)
          → w'.db ≡ w.db
          → w'.kafka ≡ w.kafka
          → Refusal w (ok (err x), w')
      already : (w' : World R) → w'.db ≡ w.db → w'.kafka ≡ w.kafka → Refusal w (ok (ok true), w')

    set_if_absent-set :
        (now : ℤ) (d : R.Db)
        → is_set now (R.sget d (dedupe_key R c)) ≡ true
        → set_if_absent R now (dedupe_key R c) dedupe_ttl d ≡ (false, d)
    unfolding set_if_absent
    set_if_absent-set now d h = rw h refl

    check-Refusal :
        (w : World R) (l : Link)
        → is_set w.now (R.sget w.db (dedupe_key R c)) ≡ true
        → head_link w.links ≡ l
        → Refusal w (attempt (check_and_mark_idempotency R c) w)
    unfolding check_and_mark_idempotency
    check-Refusal w up h on = rw (on, set_if_absent-set w.now w.db h) (already _ refl refl)
    check-Refusal w down h on = rw on (no_reply network _ refl refl)
    check-Refusal w lost h on =
        rw (on, set_if_absent-set w.now w.db h) (no_reply network _ refl refl)

    Refusal-ends :
        (w : World R) (r : Res (Res Bool) × World R)
        → Refusal w r
        → (a : Answer) × (w' : World R) × (continue_with r
              (handle_checked R http frac jitter cost c)
            ≡ (ok (record { answer = a; called = none }), w'))
          × (w'.db ≡ w.db)
          × (w'.kafka ≡ w.kafka)
    unfolding handle_checked
    Refusal-ends w _ (no_reply x w' p q) = (requeued, w', refl, p, q)
    Refusal-ends w _ (already w' p q) = (acked, w', refl, p, q)

    -- While the dedupe key of a command is set, handleTask calls no callback for it and changes
    -- neither the database nor the log: the message is acknowledged, or put back when Redis does
    -- not answer.
    handle_task-duplicate :
        (w : World R)
        → is_set w.now (R.sget w.db (dedupe_key R c)) ≡ true
        → (a : Answer) × (w' : World R) × (handle_task R http frac jitter cost c w
            ≡ (ok (record { answer = a; called = none }), w'))
          × (w'.db ≡ w.db)
          × (w'.kafka ≡ w.kafka)
    unfolding handle_task
    handle_task-duplicate w h = Refusal-ends w _ (check-Refusal w (head_link w.links) h refl)

    created-IsMarked :
        (now : ℤ) (d : R.Db)
        → (set_if_absent R now (dedupe_key R c) dedupe_ttl d).0 ≡ true
        → IsMarked R
            (dedupe_key R c)
            (now +ℤ dedupe_ttl)
            (set_if_absent R now (dedupe_key R c) dedupe_ttl d).1
    unfolding set_if_absent
    created-IsMarked now d h = elim (Bool-cases (is_set now (R.sget d (dedupe_key R c)))) [
      | inl e ↦ absurd (ground arith)
      | inr e ↦ rw e (
        now +ℤ dedupe_ttl,
        R.sget-set d (dedupe_key R c) (now +ℤ dedupe_ttl) (dedupe_key R c)
            ∙ rw (skey_eq_refl c.id c.trigger_time) refl,
        omega arith,
      )
    ]

    -- A check that lets the command through has set the key.
    abbrev Marks : ℤ → Res (Res Bool) × World R → Type 0
    Marks now (ok (ok b), w) = b ≡ false → IsMarked R (dedupe_key R c) (now +ℤ dedupe_ttl) w.db
    Marks now _ = Unit

    check-Marks :
        (w : World R) (l : Link)
        → head_link w.links ≡ l
        → Marks w.now (attempt (check_and_mark_idempotency R c) w)
    unfolding check_and_mark_idempotency
    check-Marks w up on = rw on (λ h. created-IsMarked w.now w.db (ground arith))
    check-Marks w down on = rw on tt
    check-Marks w lost on = rw on tt

    called-IsMarked :
        (now : ℤ) (r : Res (Res Bool) × World R) (w₁ : World R) (a : Answer) (c' : TaskCommand)
        → Marks now r
        → continue_with r (handle_checked R http frac jitter cost c)
          ≡ (ok (record { answer = a; called = some c' }), w₁)
        → IsMarked R (dedupe_key R c) (now +ℤ dedupe_ttl) w₁.db
    unfolding handle_checked
    called-IsMarked now (err x, w) w₁ a c' m h = absurd cc
    called-IsMarked now (ok (err x), w) w₁ a c' m h = absurd cc
    called-IsMarked now (ok (ok true), w) w₁ a c' m h = absurd cc
    called-IsMarked now (ok (ok false), w) w₁ a c' m h =
        subst (λ (d : R.Db). IsMarked R (dedupe_key R c) (now +ℤ dedupe_ttl) d) (ap (λ r. r.1.db) h)
          (handle_checked-IsMarked R (dedupe_key R c) (now +ℤ dedupe_ttl) http frac jitter cost c
            (ok false) w (m refl))

  -- What sets a dedupe key later keeps it at least as long.
  module _ (k : SKey) (u : ℤ) where
    set_if_absent-IsMarked :
        (now : ℤ) (k' : SKey) (d : R.Db)
        → IsMarked R k u d
        → IsMarked R k u (set_if_absent R now k' dedupe_ttl d).1
    unfolding set_if_absent
    set_if_absent-IsMarked now k' d (e, found, le) = elim (Bool-cases (is_set now (R.sget d k'))) [
      | inl taken ↦ rw taken (e, found, le)
      | inr free ↦ elim (Bool-cases (skey_eq k' k)) [
        | inl same ↦
            let one : R.sget d k' ≡ some e = ap (R.sget d) (skey_eq→≡ k' k same) ∙ found in
            let over : ltb_ℤ now e ≡ false = rw one at free in
            rw free (
              now +ℤ dedupe_ttl,
              R.sget-set d k' (now +ℤ dedupe_ttl) k ∙ rw same refl,
              later_le now e u over le,
            )
        | inr other ↦ rw free (e, R.sget-set d k' (now +ℤ dedupe_ttl) k ∙ rw other found, le)
      ]
    ]

    check-IsMarked :
        (c : TaskCommand) (w : World R) (l : Link)
        → head_link w.links ≡ l
        → IsMarked R k u w.db
        → IsMarked R k u (attempt (check_and_mark_idempotency R c) w).1.db
    unfolding check_and_mark_idempotency
    check-IsMarked c w up on h = rw on (set_if_absent-IsMarked w.now (dedupe_key R c) w.db h)
    check-IsMarked c w down on h = rw on h
    check-IsMarked c w lost on h = rw on (set_if_absent-IsMarked w.now (dedupe_key R c) w.db h)

    handle_task-IsMarked :
        (c : TaskCommand) (w : World R)
        → IsMarked R k u w.db
        → IsMarked R k u (handle_task R http frac jitter cost c w).1.db
    unfolding handle_task
    handle_task-IsMarked c w h =
        bind_keeps R (IsMarked R k u) (attempt (check_and_mark_idempotency R c) w)
          (handle_checked R http frac jitter cost c) (check-IsMarked c w (head_link w.links) refl h)
          (λ a v g. handle_checked-IsMarked R k u http frac jitter cost c a v g)

  -- The database after some deliveries, of any commands, at any time and over any network.
  abbrev pub deliveries : List (TaskCommand × ℤ × List Link) → World R → R.Db
  deliveries [] w = w.db
  deliveries ((c, now, links) ∷ r) w =
      deliveries r (handle_task R http frac jitter cost c (record w { now = now; links = links })).1

  deliveries-IsMarked :
      (k : SKey) (u : ℤ) (l : List (TaskCommand × ℤ × List Link)) (w : World R)
      → IsMarked R k u w.db
      → IsMarked R k u (deliveries l w)
  deliveries-IsMarked k u [] w h = h
  deliveries-IsMarked k u ((c, now, links) ∷ r) w h =
      deliveries-IsMarked k u r _
        (handle_task-IsMarked k u c (record w { now = now; links = links }) h)

  -- When handleTask has called the callback of a command, then for 86400 seconds from the start of
  -- that run no delivery of the command calls it again, however the run has ended and whatever
  -- deliveries, of any commands, at any time and over any network, come in between: the message is
  -- acknowledged or put back, and the database and the log are left as they are.
  pub handle_task-once :
      (c c' : TaskCommand) (w w₁ w₂ : World R) (a : Answer)
      (later : List (TaskCommand × ℤ × List Link))
      → handle_task R http frac jitter cost c w ≡ (ok (record { answer = a; called = some c' }), w₁)
      → w₂.db ≡ deliveries later w₁
      → ltb_ℤ w₂.now (w.now +ℤ pos 86400) ≡ true
      → (b : Answer) × (w₃ : World R) × (handle_task R http frac jitter cost c w₂
          ≡ (ok (record { answer = b; called = none }), w₃))
        × (w₃.db ≡ w₂.db)
        × (w₃.kafka ≡ w₂.kafka)
  unfolding handle_task
  handle_task-once c c' w w₁ w₂ a later first reached early =
      let first_marked =
        called-IsMarked c w.now (attempt (check_and_mark_idempotency R c) w) w₁ a c'
          (check-Marks c w (head_link w.links) refl) first in
      let (e, found, le) =
        deliveries-IsMarked (dedupe_key R c) (w.now +ℤ dedupe_ttl) later w₁ first_marked in
      let here : R.sget w₂.db (dedupe_key R c) ≡ some e = rw reached found in
      handle_task-duplicate c w₂ (rw here (before_le w₂.now (w.now +ℤ dedupe_ttl) e early le))
