-- ===== src/Run/Awake.antt =====
-- No processor sleeps on its own tasks, and none pops an empty heap.
use mathlib.Core.List.Perm
use go_flash_job.Base.{
  ℕ, zero, suc, ◌+◌, ◌/◌, ◌<◌, ◌≡◌, refl, sym, ap, ◌∙◌, ◌⊎◌, inl, inr, true, some, List, [], ◌∷◌,
  Mem, arith, length, get_or, set, length-append, length-set, length-perm, ◌≤ℤ◌,
}
use go_flash_job.Model.{Task}
use go_flash_job.Heap
use go_flash_job.Heap.Order.{IsHeap}
use go_flash_job.Heap.Correct.{pop-Popped, push-IsHeap, pop-nil, Popped}
use go_flash_job.TaskHeap.{task_order, less-trigger_time}
use go_flash_job.Processor.{P, new_p, push, steal_half}
use go_flash_job.Processor.Steal.{IsOrdered, AllOrdered, steal_half-Stolen, Stolen, mem_right}
use go_flash_job.Processor.Schedule.{push_batch-IsHeap}
use go_flash_job.Run.{
  Activity, idle, popping, scheduling, waiting, stealing, carrying, executing, sleeping, Runner,
  System, resting, runner, Turn, sees_due, sees_early, sees_none, pops, takes, looks_around, keeps,
  finishes, puts_back, wakes, wakes_early, expires, Step, fetches, turns, passes, steals, gives_up,
  Reachable, here, next, rested, started, delayed,
}

-- What holds of the queue and the token while a goroutine is at something.
abbrev pub AwakeAs : Activity → P → Type 0
AwakeAs popping p = 0 < length p.local_queue
AwakeAs waiting p = (p.local_queue ≡ []) ⊎ (p.woken ≡ true)
AwakeAs (stealing k) p = (p.local_queue ≡ []) ⊎ (p.woken ≡ true)
AwakeAs (sleeping u) p = ((t : Task) → Mem t p.local_queue → u ≤ℤ t.trigger_time) ⊎ (p.woken ≡ true)
AwakeAs _ p = Unit

pub record IsFine (r : Runner) : Type 0 where
  pub ordered : IsOrdered r.p
  pub awake : AwakeAs r.activity r.p

abbrev pub AllFine : List Runner → Type 0
AllFine [] = Unit
AllFine (r ∷ rs) = IsFine r × AllFine rs

pub AllFine-set :
    (rs : List Runner) (i : ℕ) (r : Runner) → AllFine rs → IsFine r → AllFine (set rs i r)
AllFine-set [] i r h f = tt
AllFine-set (x ∷ rs) zero r h f = (f, h.1)
AllFine-set (x ∷ rs) (suc i) r h f = (h.0, AllFine-set rs i r h.1 f)

pub IsFine-get_or :
    (rs : List Runner) (i : ℕ) (d : Runner) → i < length rs → AllFine rs → IsFine (get_or rs i d)
IsFine-get_or [] i d l h = absurd (omega arith)
IsFine-get_or (x ∷ rs) zero d l h = h.0
IsFine-get_or (x ∷ rs) (suc i) d l h = IsFine-get_or rs i d (omega arith) h.1

-- A push wakes the processor.
pushed-AwakeAs : (a : Activity) (q : P) → q.woken ≡ true → 0 < length q.local_queue → AwakeAs a q
pushed-AwakeAs idle q w n = tt
pushed-AwakeAs popping q w n = n
pushed-AwakeAs scheduling q w n = tt
pushed-AwakeAs waiting q w n = inr w
pushed-AwakeAs (stealing k) q w n = inr w
pushed-AwakeAs (carrying t ts) q w n = tt
pushed-AwakeAs (executing t) q w n = tt
pushed-AwakeAs (sleeping u) q w n = inr w

push-IsOrdered :
    (t : Task) (p : P) → IsOrdered p → IsOrdered (push t p) × (0 < length (push t p).local_queue)
unfolding push
push-IsOrdered t p h =
    let (heap, same) = push-IsHeap task_order p.local_queue t h in
    (heap, omega (arith, length-perm same))

push-IsFine : (t : Task) (r : Runner) → IsFine r → IsFine (record r { p = push t r.p })
unfolding push
push-IsFine t r f =
    let (heap, some_left) = push-IsOrdered t r.p f.ordered in
    record { ordered = heap; awake = pushed-AwakeAs r.activity (push t r.p) refl some_left }

nil_of_length : (l : List Task) → length l ≡ 0 → l ≡ []
nil_of_length [] h = refl
nil_of_length (x ∷ l) h = absurd (omega arith)

Stolen-length :
    (queue stolen left : List Task)
    → Stolen queue stolen left
    → length stolen ≡ length queue / 2
    → length left + length queue / 2 ≡ length queue
Stolen-length queue stolen left s n = omega (arith, length-perm s.same, length-append stolen left)

rested-AwakeAs :
    (p q : P) (stolen : List Task)
    → q.woken ≡ p.woken
    → Stolen p.local_queue stolen q.local_queue
    → length stolen ≡ length p.local_queue / 2
    → (p.local_queue ≡ []) ⊎ (p.woken ≡ true)
    → (q.local_queue ≡ []) ⊎ (q.woken ≡ true)
rested-AwakeAs p q l w s n (inr woken) = inr (w ∙ woken)
rested-AwakeAs p q l w s n (inl empty) =
    let size = Stolen-length p.local_queue l q.local_queue s n in
    inl (nil_of_length q.local_queue (omega (arith, size, ap (λ (z : List Task). length z) empty)))

-- Half of the queue, rounded down, is not all of it.
halved-AwakeAs :
    (a : Activity) (p q : P) (stolen : List Task)
    → q.woken ≡ p.woken
    → Stolen p.local_queue stolen q.local_queue
    → length stolen ≡ length p.local_queue / 2
    → AwakeAs a p
    → AwakeAs a q
halved-AwakeAs idle p q l w s n h = tt
halved-AwakeAs popping p q l w s n h =
    omega (arith, Stolen-length p.local_queue l q.local_queue s n)
halved-AwakeAs scheduling p q l w s n h = tt
halved-AwakeAs waiting p q l w s n h = rested-AwakeAs p q l w s n h
halved-AwakeAs (stealing k) p q l w s n h = rested-AwakeAs p q l w s n h
halved-AwakeAs (carrying t ts) p q l w s n h = tt
halved-AwakeAs (executing t) p q l w s n h = tt
halved-AwakeAs (sleeping u) p q l w s n (inr woken) = inr (w ∙ woken)
halved-AwakeAs (sleeping u) p q l w s n (inl later) =
    inl (λ t m. later t ((Perm.mem_iff s.same).0 (mem_right l q.local_queue m)))

pub found-Popped :
    (queue rest : List Task) (t : Task)
    → IsHeap task_order queue
    → Heap.pop task_order queue ≡ some (t, rest)
    → Popped task_order queue t rest
found-Popped [] rest t h e = absurd (ground (arith, e, pop-nil task_order))
found-Popped (x ∷ r) rest t h e =
    let (y, h', found, s) = pop-Popped task_order (x ∷ r) h (omega arith) in
    let top : t ≡ y = cc in let left : rest ≡ h' = cc in rw (top, left) s

-- The top of a heap is due no later than the others.
top_first :
    (queue : List Task) (top : Task)
    → IsHeap task_order queue
    → Heap.peek task_order queue ≡ some top
    → (t : Task) → Mem t queue
    → top.trigger_time ≤ℤ t.trigger_time
unfolding Heap.peek task_order
top_first [] top h e t m = absurd cc
top_first (x ∷ r) top h e t m =
    let (y, h', found, s) = pop-Popped task_order (x ∷ r) h (omega arith) in
    let same : top ≡ y = cc (s.root) in rw same (less-trigger_time y t (s.least t m))

peeked_some :
    (queue : List Task) (top : Task) → Heap.peek task_order queue ≡ some top → 0 < length queue
unfolding Heap.peek
peeked_some [] top e = absurd cc
peeked_some (x ∷ r) top e = omega arith

-- A turn of a goroutine keeps its promise.
Turn-IsFine : {r r' : Runner} {new done : List Task} → IsFine r → Turn r r' new done → IsFine r'
Turn-IsFine {r} f (sees_due now top is peeked due) = record {
  ordered = f.ordered;
  awake = peeked_some r.p.local_queue top peeked;
}
Turn-IsFine {r} f (sees_early now top is peeked early) = record {
  ordered = f.ordered;
  awake = inl (top_first r.p.local_queue top f.ordered peeked);
}
Turn-IsFine {r} f (sees_none is peeked) = record { ordered = f.ordered; awake = tt }
Turn-IsFine {r} f (pops t rest is popped) = record {
  ordered = (found-Popped r.p.local_queue rest t f.ordered popped).heap;
  awake = tt;
}
Turn-IsFine {r} f (takes t rest is popped) = record {
  ordered = (found-Popped r.p.local_queue rest t f.ordered popped).heap;
  awake = tt;
}
Turn-IsFine {r} f (looks_around is empty) = record { ordered = f.ordered; awake = inl empty }
Turn-IsFine {r} f (keeps t ts is) = record {
  ordered = (push_batch-IsHeap ts r.p (λ _. true) f.ordered).0;
  awake = tt;
}
Turn-IsFine {r} f (finishes t is) = record { ordered = f.ordered; awake = tt }
Turn-IsFine {r} f (puts_back now frac jitter t is) = record {
  ordered = (push-IsOrdered (delayed now frac jitter t) r.p f.ordered).0;
  awake = tt;
}
Turn-IsFine {r} f (wakes is token) = record { ordered = f.ordered; awake = tt }
Turn-IsFine {r} f (wakes_early u is token) = record { ordered = f.ordered; awake = tt }
Turn-IsFine {r} f (expires u is) = record { ordered = f.ordered; awake = tt }

steal_half-woken : (p : P) → (steal_half p).1.woken ≡ p.woken
unfolding steal_half
steal_half-woken p = refl

halved-IsFine : (r : Runner) → IsFine r → IsFine (record r { p = (steal_half r.p).1 })
halved-IsFine r f =
    let (s, size, same) = steal_half-Stolen r.p f.ordered in
    record {
      ordered = s.heap;
      awake =
          halved-AwakeAs r.activity r.p (steal_half r.p).1 (steal_half r.p).0 (steal_half-woken r.p)
            s size f.awake;
    }

steal_half-IsFine :
    (r : Runner) (stolen : List Task) (q : P)
    → IsFine r
    → steal_half r.p ≡ (stolen, q)
    → IsFine (record r { p = q })
steal_half-IsFine r stolen q f e =
    let left : q ≡ (steal_half r.p).1 = ap (λ (z : List Task × P). z.1) (sym e) in
    rw left (halved-IsFine r f)

busy-AwakeAs :
    (r : Runner) (k : ℕ)
    → IsFine r
    → r.activity ≡ stealing k
    → (r.p.local_queue ≡ []) ⊎ (r.p.woken ≡ true)
busy-AwakeAs r k f is = rw is at f.awake

Step-AllFine : {s t : System} → AllFine s.runners → Step s t → AllFine t.runners
Step-AllFine {s} h (fetches i t l) =
    AllFine-set s.runners i _ h (push-IsFine t (runner s i) (IsFine-get_or s.runners i _ l h))
Step-AllFine {s} h (turns i r new done l turn) =
    AllFine-set s.runners i r h (Turn-IsFine (IsFine-get_or s.runners i _ l h) turn)
Step-AllFine {s} h (passes i k l l' is why) =
    let f = IsFine-get_or s.runners i (resting (new_p i)) l h in
    AllFine-set s.runners i _ h
      (record { ordered = f.ordered; awake = busy-AwakeAs (runner s i) k f is })
Step-AllFine {s} h (steals i k t ts q l l' is other e) =
    let f = IsFine-get_or s.runners i (resting (new_p i)) l h in
    let g = IsFine-get_or s.runners k (resting (new_p k)) l' h in
    AllFine-set (set s.runners k (record (runner s k) { p = q })) i _
      (AllFine-set s.runners k _ h (steal_half-IsFine (runner s k) (t ∷ ts) q g e))
      (record { ordered = f.ordered; awake = tt })
Step-AllFine {s} h (gives_up i k l over is) =
    let f = IsFine-get_or s.runners i (resting (new_p i)) l h in
    AllFine-set s.runners i _ h
      (record { ordered = f.ordered; awake = busy-AwakeAs (runner s i) k f is })

pub Reachable-AllFine : {s t : System} → AllFine s.runners → Reachable s t → AllFine t.runners
Reachable-AllFine h here = h
Reachable-AllFine h (next r step) = Step-AllFine (Reachable-AllFine h r) step

pub rested-AllFine : (ps : List P) → AllOrdered ps → AllFine (rested ps)
rested-AllFine [] h = tt
rested-AllFine (p ∷ r) h = (record { ordered = h.0; awake = tt }, rested-AllFine r h.1)

rested-length : (ps : List P) → length (rested ps) ≡ length ps
rested-length [] = refl
rested-length (p ∷ r) = ap suc (rested-length r)

Step-length : {s t : System} → Step s t → length t.runners ≡ length s.runners
Step-length {s} (fetches i t l) = length-set s.runners i _
Step-length {s} (turns i r new done l turn) = length-set s.runners i r
Step-length {s} (passes i k l l' is why) = length-set s.runners i _
Step-length {s} (steals i k t ts q l l' is other e) =
    length-set (set s.runners k (record (runner s k) { p = q })) i _ ∙ length-set s.runners k _
Step-length {s} (gives_up i k l over is) = length-set s.runners i _

pub Reachable-length : {s t : System} → Reachable s t → length t.runners ≡ length s.runners
Reachable-length here = refl
Reachable-length (next r step) = Step-length step ∙ Reachable-length r

-- However the processors and the fetcher interleave: a processor that is about to pop its heap
-- finds a task there; one that waits for a token, or looks for tasks to steal, has an empty queue
-- or a token that will wake it; and one that waits for a time has no task due before that time, or
-- a token. So a push is never missed.
pub Reachable-awake :
    (ps : List P) (s : System) (i : ℕ)
    → AllOrdered ps
    → Reachable (started ps) s
    → i < length ps
    → AwakeAs (runner s i).activity (runner s i).p
Reachable-awake ps s i h r l =
    (IsFine-get_or s.runners i (resting (new_p i))
      (omega (arith, Reachable-length r, rested-length ps))
      (Reachable-AllFine (rested-AllFine ps h) r)).awake
