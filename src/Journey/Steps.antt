-- ===== src/Journey/Steps.antt =====
-- The steps of a job's way, each from where the one before leaves it.
use Prim.Native.String.{String}
use text.Mathlib.Text.{◌==◌ as str_eq}
use text.Mathlib.TextEquality.{eq_iff}
use text.Mathlib.TextPositions.{eq_refl}
use go_flash_job.Base.{
  ◌≡◌, refl, sym, ap, ◌∙◌, inl, inr, true, false, none, some, List, [], ◌∷◌, arith, Bool-cases, ℤ,
  leb_ℤ,
}
use go_flash_job.Model.{Task}
use go_flash_job.Heap
use go_flash_job.TaskHeap.{task_order}
use go_flash_job.Redis.{find, Distinct}
use go_flash_job.Processor.{P, new_p, push, run_round, run_task}
use go_flash_job.Scheduler.{new_ps, is_aged, age, placed}
use go_flash_job.Scheduler.Placed.{place_all}

-- A reply that finds one member names it alone.
find_refl : (m : String) (s : ℤ) (r : List (String × ℤ)) → find m ((m, s) ∷ r) ≡ some s
find_refl m s r = rw (eq_refl m) refl

nothing_found : (l : List (String × ℤ)) → ((m : String) → find m l ≡ none) → l ≡ []
nothing_found [] h = refl
nothing_found ((m, s) ∷ r) h = absurd (ground (arith, find_refl m s r, h m))

alone :
    (m : String) (u : ℤ) (r : List (String × ℤ))
    → find m r ≡ none
    → ((x : String) → str_eq m x ≡ false → find x ((m, u) ∷ r) ≡ none)
    → r ≡ []
alone m u r once others = nothing_found r (λ x. elim (Bool-cases (str_eq m x)) [
  | inl same ↦ let e : m ≡ x = (eq_iff m x).0 same in rw⁻¹ e once
  | inr other ↦ rw other at (others x other)
])

pub one_found :
    (l : List (String × ℤ)) (id : String) (s : ℤ)
    → Distinct l
    → find id l ≡ some s
    → ((m : String) → str_eq id m ≡ false → find m l ≡ none)
    → l ≡ (id, s) ∷ []
one_found [] id s once found others = absurd (ground (arith, found))
one_found ((m, u) ∷ r) id s once found others = elim (Bool-cases (str_eq id m)) [
  | inr other ↦ absurd (ground (arith, find_refl m u r, others m other))
  | inl same ↦
      let e : id ≡ m = (eq_iff id m).0 same in
      let score : some u ≡ some s =
        sym (find_refl m u r) ∙ ap (λ x. find x ((m, u) ∷ r)) (sym e) ∙ found in
      let rest : r ≡ [] = alone m u r once.0 (rw e at others) in
      rw (rest, e) (ap (λ x. (m, x) ∷ []) cc)
]

-- age changes the priority only.
pub age-id : (now : ℤ) (t : Task) → (age now t).id ≡ t.id
unfolding age
age-id now t = elim (Bool-cases (is_aged now t)) [ inl e ↦ rw e refl | inr e ↦ rw e refl ]

pub age-trigger_time : (now : ℤ) (t : Task) → (age now t).trigger_time ≡ t.trigger_time
unfolding age
age-trigger_time now t = elim (Bool-cases (is_aged now t)) [ inl e ↦ rw e refl | inr e ↦ rw e refl ]

pub age-callback_url : (now : ℤ) (t : Task) → (age now t).callback_url ≡ t.callback_url
unfolding age
age-callback_url now t = elim (Bool-cases (is_aged now t)) [ inl e ↦ rw e refl | inr e ↦ rw e refl ]

-- The processors after one job was placed, and after the round that runs it.
abbrev pub one_placed : Task → List P
one_placed t = push t (new_p 0) ∷ new_p 1 ∷ []

pub place_one : (t : Task) → place_all 0 (t ∷ []) new_ps ≡ one_placed t
unfolding new_ps placed
place_one t = refl

abbrev pub woken_p : P
woken_p = record { id = 0; local_queue = []; woken = true; stopped = false }

pub run_one :
    (now : ℤ) (t : Task)
    → leb_ℤ t.trigger_time now ≡ true
    → run_round 0 now (one_placed t) ≡ (run_task t, woken_p ∷ new_p 1 ∷ [])
unfolding run_round push new_p Heap.push Heap.peek Heap.pop task_order
run_one now t due = rw due refl
