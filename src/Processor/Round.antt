-- ===== src/Processor/Round.antt =====
-- A round of Run.
use go_flash_job.Base.{
  ℕ, ◌<◌, ◌≡◌, refl, ap, ◌∙◌, inl, inr, Bool, true, false, Option, none, some, List, [], ◌∷◌, Mem,
  arith, Bool-cases, length, get_or, ℤ, leb_ℤ,
}
use go_flash_job.Model.{Task}
use go_flash_job.Heap
use go_flash_job.Heap.Correct.{pop-Popped}
use go_flash_job.TaskHeap.{less, task_order, less-trigger_time}
use go_flash_job.Processor.{
  P, new_p, schedule, Decision, wait_wake, run_task, wait_seconds, run_round, decide_empty,
  decide_top,
}
use go_flash_job.Processor.Steal.{IsOrdered, AllOrdered, held, NothingToSteal}
use go_flash_job.Processor.Schedule.{IsOrdered-get_or, Scheduled, schedule-Scheduled}

-- The task is due at `now`.
abbrev pub is_due : ℤ → Task → Bool
is_due now t = leb_ℤ t.trigger_time now

-- What a round of Run does when the local queue is not empty.
abbrev pub TopDecision : ℤ → List Task → Decision → Type 0
TopDecision now queue wait_wake = ⊥
TopDecision now queue (run_task t) =
    (is_due now t ≡ true) × ((u : Task) → Mem u queue → less u t ≡ false)
TopDecision now queue (wait_seconds n) = (u : Task) → Mem u queue → is_due now u ≡ false

later_not_due :
    (now : ℤ) (t u : Task) → less u t ≡ false → is_due now t ≡ false → is_due now u ≡ false
later_not_due now t u h k = let e = less-trigger_time t u h in ground arith

peek-cons : (t : Task) (r : List Task) → Heap.peek task_order (t ∷ r) ≡ some t
unfolding Heap.peek
peek-cons t r = refl

decide_top-TopDecision :
    (i : ℕ) (now : ℤ) (ps : List P) (p : P) (t : Task) (rest queue : List Task)
    → ((u : Task) → Mem u queue → less u t ≡ false)
    → TopDecision now queue (decide_top i now ps p t (some (t, rest))).0
unfolding decide_top
decide_top-TopDecision i now ps p t rest queue least = elim (Bool-cases (is_due now t)) [
  | inl due ↦ rw due (due, least)
  | inr early ↦ rw early (λ u m. later_not_due now t u (least u m) early)
]

-- A processor with tasks runs the first of them if that is due, and waits only if none is due.
pub run_round-TopDecision :
    (i : ℕ) (now : ℤ) (ps : List P)
    → i < length ps
    → AllOrdered ps
    → 0 < length (get_or ps i (new_p i)).local_queue
    → TopDecision now (get_or ps i (new_p i)).local_queue (run_round i now ps).0
unfolding run_round task_order
run_round-TopDecision i now ps l h nonempty =
    local (get_or ps i (new_p i)) refl (get_or ps i (new_p i)).local_queue refl
  where
    local :
        (p : P)
        → get_or ps i (new_p i) ≡ p
        → (queue : List Task) → p.local_queue ≡ queue
        → TopDecision now p.local_queue (
            let out : Decision × List P = elim (Heap.peek task_order p.local_queue) [
              | none ↦ decide_empty (schedule i ps)
              | some top ↦ decide_top i now ps p top (Heap.pop task_order p.local_queue)
            ] in
            out.0)
    local p e [] q = absurd (omega (arith, rw (e, q) at nonempty))
    local p e (y ∷ r) q =
        let heap : IsOrdered p = rw e at (IsOrdered-get_or ps i (new_p i) l h) in
        let (x, rest, popped, s) = pop-Popped task_order p.local_queue heap (rw q (omega arith)) in
        let root : x ≡ y = s.root ∙ ap (λ z. Heap.elem task_order z 0) q in
        let popped' : Heap.pop task_order p.local_queue ≡ some (y, rest) =
          popped ∙ ap (λ z. some (z, rest)) root in
        let peeked : Heap.peek task_order p.local_queue ≡ some y =
          ap (Heap.peek task_order) q ∙ peek-cons y r in
        rw (peeked, popped')
          (decide_top-TopDecision i now ps p y rest p.local_queue (λ u m. rw root at (s.least u m)))

peek-nil : Heap.peek task_order [] ≡ none
unfolding Heap.peek
peek-nil = refl

early_found :
    (i : ℕ) (now : ℤ) (ps : List P) (found : Option Task) (ps' : List P)
    → Scheduled i ps found ps'
    → held (is_due now) ps ≡ 0
    → ¬ NothingToSteal (get_or ps i (new_p i)).id ps
    → (t : Task) × (ps'' : List P) × (decide_empty (found, ps') ≡ (run_task t, ps''))
      × (is_due now t ≡ false)
unfolding decide_empty
early_found i now ps none ps' s h some_left = absurd (some_left (s.nothing refl).1)
early_found i now ps (some t) ps' s h some_left =
    (t, ps', refl, ground (arith, s.conserved (is_due now)))

-- With no task due anywhere, a processor whose queue is empty still runs a task, before its
-- time, as soon as another processor has two.
pub run_round_early :
    (i : ℕ) (now : ℤ) (ps : List P)
    → i < length ps
    → AllOrdered ps
    → (get_or ps i (new_p i)).local_queue ≡ []
    → held (is_due now) ps ≡ 0
    → ¬ NothingToSteal (get_or ps i (new_p i)).id ps
    → (t : Task) × (ps' : List P) × (run_round i now ps ≡ (run_task t, ps'))
      × (is_due now t ≡ false)
unfolding run_round
run_round_early i now ps l h empty none_due left =
    let dry : Heap.peek task_order (get_or ps i (new_p i)).local_queue ≡ none =
      ap (Heap.peek task_order) empty ∙ peek-nil in
    rw (dry, run_round)
      (early_found i now ps (schedule i ps).0 (schedule i ps).1 (schedule-Scheduled i ps l h)
        none_due left)
