-- ===== src/Processor/Steal.antt =====
-- What StealHalf, workSteal and schedule do with the tasks of the local queues.
use mathlib.Core.Logic.Or
use mathlib.Core.List.{Pairwise, mem-append, not-mem-nil, mem-cons, mem-cons_of_mem}
use mathlib.Core.List.Perm
use go_flash_job.Base.{
  ℕ, zero, suc, ◌+◌, ◌/◌, ◌≤◌, ◌<◌, ◌≡◌, refl, ap, ◌≢◌, ◌⊎◌, inl, inr, Bool, List, [], ◌∷◌, ◌++◌,
  Mem, Perm, arith, ◌==◌, Bool-cases, length, get_or, length-perm, count, count-append, count-perm,
}
use go_flash_job.Model.{Task}
use go_flash_job.Heap.Order.{Le, IsHeap}
use go_flash_job.Heap.Correct.{pop-Popped}
use go_flash_job.TaskHeap.{task_order}
use go_flash_job.Processor.{P, pop_times, steal_half, work_steal, local_len}

abbrev pub IsOrdered : P → Type 0
IsOrdered p = IsHeap task_order p.local_queue

-- `stolen` are the first tasks of the queue in the order in which it would run them.
pub record Stolen (queue stolen left : List Task) : Type 0 where
  pub same : Perm (stolen ++ left) queue
  pub heap : IsHeap task_order left
  pub sorted : Pairwise (Le task_order) stolen
  pub first : (s t : Task) → Mem s stolen → Mem t left → Le task_order s t

mem_left : (a b : List Task) {x : Task} → Mem x a → Mem x (a ++ b)
mem_left a b m = mem-append.1 (Or.inl m)

pub mem_right : (a b : List Task) {x : Task} → Mem x b → Mem x (a ++ b)
mem_right a b m = mem-append.1 (Or.inr m)

pop_times-Stolen :
    (n : ℕ) (queue : List Task)
    → IsHeap task_order queue
    → n ≤ length queue
    → Stolen queue (pop_times n queue).0 (pop_times n queue).1 × (length (pop_times n queue).0 ≡ n)
unfolding pop_times
pop_times-Stolen zero queue heap h = (
  record {
    same = Perm.rfl;
    heap = heap;
    sorted = Pairwise.nil;
    first = λ s t m. absurd (not-mem-nil m);
  },
  refl,
)
pop_times-Stolen (suc n) queue heap h =
    let (x, rest, e, popped) = pop-Popped task_order queue heap (omega arith) in
    let (s, size) = pop_times-Stolen n rest popped.heap (omega (arith, length-perm popped.same)) in
    let into : (y : Task) → Mem y rest → Mem y queue =
      λ y m. (Perm.mem_iff popped.same).0 (mem-cons_of_mem x m) in
    rw (e, pop_times)
      (
        record {
          same = Perm.trans (Perm.cons x s.same) popped.same;
          heap = s.heap;
          sorted =
              Pairwise.cons
                (λ y m. popped.least y (
                  into y (
                    (Perm.mem_iff s.same).0
                      (mem_left (pop_times n rest).0 (pop_times n rest).1 m))))
                s.sorted;
          first = λ y z m k.
              let prop : IsProp (Le task_order y z) = hlevel in
              Or.elim prop (mem-cons.0 m)
                (λ q. rw q (
                  popped.least z (
                    into z (
                      (Perm.mem_iff s.same).0
                        (mem_right (pop_times n rest).0 (pop_times n rest).1 k)))))
                (λ q. s.first y z q k);
        },
        omega (arith, size),
      )

-- StealHalf takes half of the queue, rounded down: the tasks that would have run first, in that
-- order. The others stay, in heap order.
pub steal_half-Stolen :
    (p : P)
    → IsOrdered p
    → Stolen p.local_queue (steal_half p).0 (steal_half p).1.local_queue
      × (length (steal_half p).0 ≡ length p.local_queue / 2)
      × ((steal_half p).1.id ≡ p.id)
unfolding steal_half
steal_half-Stolen p heap =
    let s = pop_times-Stolen (length p.local_queue / 2) p.local_queue heap (omega arith) in
    (s.0, s.1, refl)

-- Every queue is in heap order.
abbrev pub AllOrdered : List P → Type 0
AllOrdered [] = Unit
AllOrdered (p ∷ r) = IsOrdered p × AllOrdered r

-- How many tasks in all the queues pass a test.
abbrev pub held : (Task → Bool) → List P → ℕ
held test [] = 0
held test (p ∷ r) = count test p.local_queue + held test r

-- No other processor than the thief has two tasks.
abbrev pub NothingToSteal : ℕ → List P → Type 0
NothingToSteal thief [] = Unit
NothingToSteal thief (p ∷ r) = ((p.id ≡ thief) ⊎ (local_len p < 2)) × NothingToSteal thief r

pub record StealResult (thief : ℕ) (ps : List P) (stolen : List Task) (ps' : List P) : Type 0 where
  pub ordered : AllOrdered ps'
  pub conserved : (test : Task → Bool) → count test stolen + held test ps' ≡ held test ps
  pub size : length ps' ≡ length ps
  pub thief_kept :
      (i : ℕ) (q : P) → i < length ps → (get_or ps i q).id ≡ thief → get_or ps' i q ≡ get_or ps i q
  pub ids : (i : ℕ) (q : P) → (get_or ps' i q).id ≡ (get_or ps i q).id
  pub none_left : stolen ≡ [] → NothingToSteal thief ps

-- `q` is the processor that is left when `stolen` has been taken from `p`.
abbrev Halved : P → List Task → P → Type 0
Halved p stolen q =
    Stolen p.local_queue stolen q.local_queue
    × (length stolen ≡ length p.local_queue / 2)
    × (q.id ≡ p.id)

Halved-count :
    (p : P) (stolen : List Task) (q : P) (test : Task → Bool)
    → Halved p stolen q
    → count test stolen + count test q.local_queue ≡ count test p.local_queue
Halved-count p stolen q test h =
    omega (arith, count-append test stolen q.local_queue, count-perm test h.0.same)

cons_kept :
    (thief : ℕ) (p q : P) (r r' : List P)
    → (p.id ≡ thief → q ≡ p)
    → ((i : ℕ) (d : P) → i < length r → (get_or r i d).id ≡ thief → get_or r' i d ≡ get_or r i d)
    → (i : ℕ) (d : P) → i < suc (length r)
    → (get_or (p ∷ r) i d).id ≡ thief
    → get_or (q ∷ r') i d ≡ get_or (p ∷ r) i d
cons_kept thief p q r r' same h zero d l e = same e
cons_kept thief p q r r' same h (suc i) d l e = h i d (omega arith) e

cons_ids :
    (p q : P) (r r' : List P)
    → q.id ≡ p.id
    → ((i : ℕ) (d : P) → (get_or r' i d).id ≡ (get_or r i d).id)
    → (i : ℕ) (d : P) → (get_or (q ∷ r') i d).id ≡ (get_or (p ∷ r) i d).id
cons_ids p q r r' same h zero d = same
cons_ids p q r r' same h (suc i) d = h i d

-- The processor is the thief itself.
steal_skip :
    (thief : ℕ) (p : P) (r r' : List P) (l : List Task)
    → IsOrdered p
    → p.id ≡ thief
    → StealResult thief r l r'
    → StealResult thief (p ∷ r) l (p ∷ r')
steal_skip thief p r r' l o e s = record {
  ordered = (o, s.ordered);
  conserved = λ test. omega (arith, s.conserved test);
  size = ap suc s.size;
  thief_kept = cons_kept thief p p r r' (λ _. refl) s.thief_kept;
  ids = cons_ids p p r r' refl s.ids;
  none_left = λ n. (inl e, s.none_left n);
}

-- The processor has nothing to give.
steal_dry :
    (thief : ℕ) (p q : P) (r r' : List P) (l : List Task)
    → Halved p [] q
    → p.id ≢ thief
    → StealResult thief r l r'
    → StealResult thief (p ∷ r) l (q ∷ r')
steal_dry thief p q r r' l h ne s = record {
  ordered = (h.0.heap, s.ordered);
  conserved = λ test. omega (arith, s.conserved test, Halved-count p [] q test h);
  size = ap suc s.size;
  thief_kept = cons_kept thief p q r r' (λ e. absurd (ne e)) s.thief_kept;
  ids = cons_ids p q r r' h.2 s.ids;
  none_left = λ n. (inr (omega (arith, h.1)), s.none_left n);
}

-- The processor gives half of its tasks.
steal_take :
    (thief : ℕ) (p q : P) (r : List P) (t : Task) (ts : List Task)
    → Halved p (t ∷ ts) q
    → p.id ≢ thief
    → AllOrdered r
    → StealResult thief (p ∷ r) (t ∷ ts) (q ∷ r)
steal_take thief p q r t ts h ne o = record {
  ordered = (h.0.heap, o);
  conserved = λ test. omega (arith, Halved-count p (t ∷ ts) q test h);
  size = refl;
  thief_kept = cons_kept thief p q r r (λ e. absurd (ne e)) (λ i d l e. refl);
  ids = cons_ids p q r r h.2 (λ i d. refl);
  none_left = λ n. cc;
}

-- workSteal takes nothing from the thief and loses or makes up no task; the queues stay in heap
-- order, and it comes back empty only if no other processor has two tasks.
pub work_steal-StealResult :
    (thief : ℕ) (ps : List P)
    → AllOrdered ps
    → StealResult thief ps (work_steal thief ps).0 (work_steal thief ps).1
unfolding work_steal
work_steal-StealResult thief [] h = record {
  ordered = tt;
  conserved = λ test. omega arith;
  size = refl;
  thief_kept = λ i q l e. refl;
  ids = λ i q. refl;
  none_left = λ e. tt;
}
work_steal-StealResult thief (p ∷ r) h =
    let ih = work_steal-StealResult thief r h.1 in
    elim (Bool-cases (p.id == thief)) [
      | inl own ↦
          rw own (
            steal_skip thief p r (work_steal thief r).1 (work_steal thief r).0 h.0 (ground arith)
              ih)
      | inr other ↦ rw other (
          give thief p (steal_half p).0 (steal_half p).1 r (work_steal thief r).1
            (work_steal thief r).0 (steal_half-Stolen p h.0) (ground arith) h.1 ih)
    ]
  where
    give :
        (thief : ℕ) (p : P) (l : List Task) (q : P) (r r' : List P) (l' : List Task)
        → Halved p l q
        → p.id ≢ thief
        → AllOrdered r
        → StealResult thief r l' r'
        → let out : List Task × List P = elim l [ [] ↦ (l', q ∷ r') | t ∷ ts ↦ (t ∷ ts, q ∷ r) ] in
          StealResult thief (p ∷ r) out.0 out.1
    give thief p [] q r r' l' h ne o s = steal_dry thief p q r r' l' h ne s
    give thief p (t ∷ ts) q r r' l' h ne o s = steal_take thief p q r t ts h ne o
