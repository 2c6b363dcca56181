-- ===== src/Processor/Schedule.antt =====
-- schedule.
use go_flash_job.Base.{
  ℕ, zero, suc, ◌+◌, ◌<◌, ◌≡◌, refl, ap, ◌∙◌, Bool, true, Option, none, some, List, [], ◌∷◌, arith,
  length, get_or, set, length-set, count, count-perm, one_if,
}
use go_flash_job.Model.{Task}
use go_flash_job.Heap
use go_flash_job.Heap.Order.{IsHeap}
use go_flash_job.Heap.Correct.{Popped, pop-Popped, push-IsHeap, pop-nil}
use go_flash_job.TaskHeap.{task_order}
use go_flash_job.Processor.{
  P, new_p, push_batch, work_steal, schedule, push_all, after_steal, after_pop,
}
use go_flash_job.Processor.Steal.{
  IsOrdered, AllOrdered, held, NothingToSteal, StealResult, work_steal-StealResult,
}

push_all-IsHeap :
    (ts queue : List Task) (test : Task → Bool)
    → IsHeap task_order queue
    → IsHeap task_order (push_all ts queue)
      × (count test (push_all ts queue) ≡ count test ts + count test queue)
unfolding push_all
push_all-IsHeap [] queue test h = (h, omega arith)
push_all-IsHeap (t ∷ ts) queue test h =
    let (h', same) = push-IsHeap task_order queue t h in
    let ih = push_all-IsHeap ts (Heap.push task_order queue t) test h' in
    (ih.0, omega (arith, ih.1, count-perm test same))

pub push_batch-IsHeap :
    (ts : List Task) (p : P) (test : Task → Bool)
    → IsOrdered p
    → IsOrdered (push_batch ts p)
      × (count test (push_batch ts p).local_queue ≡ count test ts + count test p.local_queue)
unfolding push_batch
push_batch-IsHeap ts p test h = push_all-IsHeap ts p.local_queue test h

module _ (q : P) where
  held-set :
      (ps : List P) (i : ℕ) (d : P) (test : Task → Bool)
      → i < length ps
      → held test (set ps i q) + count test (get_or ps i d).local_queue
        ≡ held test ps + count test q.local_queue
  held-set [] i d test h = absurd (omega arith)
  held-set (p ∷ ps) zero d test h = omega arith
  held-set (p ∷ ps) (suc i) d test h = omega (arith, held-set ps i d test (omega arith))

  AllOrdered-set : (ps : List P) (i : ℕ) → AllOrdered ps → IsOrdered q → AllOrdered (set ps i q)
  AllOrdered-set [] i h o = tt
  AllOrdered-set (p ∷ ps) zero h o = (o, h.1)
  AllOrdered-set (p ∷ ps) (suc i) h o = (h.0, AllOrdered-set ps i h.1 o)

pub IsOrdered-get_or :
    (ps : List P) (i : ℕ) (d : P) → i < length ps → AllOrdered ps → IsOrdered (get_or ps i d)
IsOrdered-get_or [] i d l h = absurd (omega arith)
IsOrdered-get_or (p ∷ ps) zero d l h = h.0
IsOrdered-get_or (p ∷ ps) (suc i) d l h = IsOrdered-get_or ps i d (omega arith) h.1

-- A task that may have been taken out.
abbrev count_found : (Task → Bool) → Option Task → ℕ
count_found test none = 0
count_found test (some t) = one_if (test t)

pub record Scheduled (i : ℕ) (ps : List P) (found : Option Task) (ps' : List P) : Type 0 where
  pub ordered : AllOrdered ps'
  pub conserved : (test : Task → Bool) → count_found test found + held test ps' ≡ held test ps
  pub size : length ps' ≡ length ps
  pub nothing :
      found ≡ none
      → ((get_or ps i (new_p i)).local_queue ≡ []) × NothingToSteal (get_or ps i (new_p i)).id ps

after_pop-Scheduled :
    (i : ℕ) (ps : List P) (x : Task) (rest : List Task) (p : P)
    → i < length ps
    → AllOrdered ps
    → get_or ps i (new_p i) ≡ p
    → Popped task_order p.local_queue x rest
    → Scheduled i ps (some x) (set ps i (record p { local_queue = rest }))
after_pop-Scheduled i ps x rest p l h e s = record {
  ordered = AllOrdered-set (record p { local_queue = rest }) ps i h s.heap;
  conserved = λ test.
      let moved = held-set (record p { local_queue = rest }) ps i (new_p i) test l in
      omega (arith, moved, count-perm test s.same, ap (λ (q : P). count test q.local_queue) e);
  size = length-set ps i (record p { local_queue = rest });
  nothing = λ n. cc;
}

after_steal-Scheduled :
    (i : ℕ) (ps ps' : List P) (stolen : List Task)
    → i < length ps
    → (get_or ps i (new_p i)).local_queue ≡ []
    → StealResult (get_or ps i (new_p i)).id ps stolen ps'
    → Scheduled i ps (after_steal i (stolen, ps')).0 (after_steal i (stolen, ps')).1
unfolding after_steal
after_steal-Scheduled i ps ps' [] l e s = record {
  ordered = s.ordered;
  conserved = s.conserved;
  size = s.size;
  nothing = λ n. (e, s.none_left refl);
}
after_steal-Scheduled i ps ps' (t ∷ ts) l e s =
    let q = get_or ps' i (new_p i) in
    let p' = push_batch ts q in
    let inside : i < length ps' = omega (arith, s.size) in
    let heap = IsOrdered-get_or ps' i (new_p i) inside s.ordered in
    record {
      ordered = AllOrdered-set p' ps' i s.ordered (push_batch-IsHeap ts q (λ _. true) heap).0;
      conserved = λ test. omega (
        arith,
        held-set p' ps' i (new_p i) test inside,
        s.conserved test,
        (push_batch-IsHeap ts q test heap).1,
      );
      size = length-set ps' i p' ∙ s.size;
      nothing = λ n. cc;
    }

-- schedule takes one task out of the queues and moves others at most between them; it finds none
-- only if the processor's own queue is empty and no other processor has two tasks.
pub schedule-Scheduled :
    (i : ℕ) (ps : List P)
    → i < length ps
    → AllOrdered ps
    → Scheduled i ps (schedule i ps).0 (schedule i ps).1
unfolding schedule
schedule-Scheduled i ps l h =
    local (get_or ps i (new_p i)) refl (get_or ps i (new_p i)).local_queue refl
  where
    local :
        (p : P)
        → get_or ps i (new_p i) ≡ p
        → (queue : List Task) → p.local_queue ≡ queue
        → Scheduled i ps
            (after_pop i ps p (Heap.pop task_order p.local_queue)).0
            (after_pop i ps p (Heap.pop task_order p.local_queue)).1
    local p e [] q =
        let dry : Heap.pop task_order p.local_queue ≡ none =
          ap (Heap.pop task_order) q ∙ pop-nil task_order in
        let steal = work_steal-StealResult p.id ps h in
        rw dry (
          after_steal-Scheduled i ps (work_steal p.id ps).1 (work_steal p.id ps).0 l
            (ap (λ (r : P). r.local_queue) e ∙ q) (rw e steal))
    local p e (y ∷ r) q =
        let heap : IsOrdered p = rw e at (IsOrdered-get_or ps i (new_p i) l h) in
        let (x, rest, popped, s) = pop-Popped task_order p.local_queue heap (rw q (omega arith)) in
        rw popped (after_pop-Scheduled i ps x rest p l h e s)
