-- ===== src/Run/Tasks.antt =====
-- The processors neither lose nor double a task.
use go_flash_job.Base.{
  ℕ, zero, suc, ◌+◌, ◌<◌, ◌≡◌, refl, ap, ◌∙◌, ◌≢◌, inl, inr, Bool, some, List, [], ◌∷◌, arith, ◌==◌,
  if◌then◌else◌, Bool-cases, length, get_or, set, length-set, count, count-append, count-perm,
  one_if, ==_iff, get_or-set,
}
use go_flash_job.Model.{Task}
use go_flash_job.Heap
use go_flash_job.Heap.Correct.{push-IsHeap}
use go_flash_job.TaskHeap.{task_order}
use go_flash_job.Processor.{P, new_p, push, steal_half}
use go_flash_job.Processor.Steal.{IsOrdered, AllOrdered, held, steal_half-Stolen}
use go_flash_job.Processor.Schedule.{push_batch-IsHeap}
use go_flash_job.Run.{
  Activity, waiting, stealing, carrying, executing, Runner, System, resting, runner, turned,
  becomes, Turn, sees_due, sees_early, sees_none, pops, takes, looks_around, keeps, finishes,
  puts_back, wakes, wakes_early, expires, Step, fetches, turns, passes, steals, gives_up, Reachable,
  here, next, rested, started, delayed,
}
use go_flash_job.Run.Awake.{
  IsFine, AllFine, IsFine-get_or, found-Popped, Reachable-AllFine, rested-AllFine,
}

-- The tasks that a goroutine has in its hands.
abbrev pub in_hand : Activity → List Task
in_hand (carrying t ts) = t ∷ ts
in_hand (executing t) = t ∷ []
in_hand _ = []

module _ (test : Task → Bool) where
  -- How many of the tasks that a processor has pass a test, and how many of all of them.
  abbrev pub has : Runner → ℕ
  has r = count test r.p.local_queue + count test (in_hand r.activity)

  abbrev pub all_have : List Runner → ℕ
  all_have [] = 0
  all_have (r ∷ rs) = has r + all_have rs

  all_have-set :
      (rs : List Runner) (i : ℕ) (r d : Runner)
      → i < length rs
      → all_have (set rs i r) + has (get_or rs i d) ≡ all_have rs + has r
  all_have-set [] i r d l = absurd (omega arith)
  all_have-set (x ∷ rs) zero r d l = omega arith
  all_have-set (x ∷ rs) (suc i) r d l = omega (arith, all_have-set rs i r d (omega arith))

  push-has :
      (t : Task) (p : P)
      → IsOrdered p
      → count test (push t p).local_queue ≡ one_if (test t) + count test p.local_queue
  unfolding push
  push-has t p h = omega (arith, count-perm test (push-IsHeap task_order p.local_queue t h).1)

  popped-has :
      (queue rest : List Task) (t : Task)
      → IsOrdered (record (new_p 0) { local_queue = queue })
      → Heap.pop task_order queue ≡ some (t, rest)
      → count test queue ≡ one_if (test t) + count test rest
  popped-has queue rest t h e = omega (arith, count-perm test (found-Popped queue rest t h e).same)

  Turn-has :
      {r r' : Runner} {new done : List Task}
      → IsFine r
      → Turn r r' new done
      → has r' + count test done ≡ has r + count test new
  Turn-has {r} f (sees_due now top is peeked due) = rw is (omega arith)
  Turn-has {r} f (sees_early now top is peeked early) = rw is (omega arith)
  Turn-has {r} f (sees_none is peeked) = rw is (omega arith)
  Turn-has {r} f (pops t rest is popped) =
      rw is (omega (arith, popped-has r.p.local_queue rest t f.ordered popped))
  Turn-has {r} f (takes t rest is popped) =
      rw is (omega (arith, popped-has r.p.local_queue rest t f.ordered popped))
  Turn-has {r} f (looks_around is empty) = rw is (omega arith)
  Turn-has {r} f (keeps t ts is) =
      rw is (omega (arith, (push_batch-IsHeap ts r.p test f.ordered).1))
  Turn-has {r} f (finishes t is) = rw is (omega arith)
  Turn-has {r} f (puts_back now frac jitter t is) =
      rw is (omega (arith, push-has (delayed now frac jitter t) r.p f.ordered))
  Turn-has {r} f (wakes is token) = rw is (omega arith)
  Turn-has {r} f (wakes_early u is token) = rw is (omega arith)
  Turn-has {r} f (expires u is) = rw is (omega arith)

  -- The tasks that were there or pushed are the ones that are there and the executed ones.
  abbrev IsKept : ℕ → System → Type 0
  IsKept n s = n + count test s.pushed ≡ all_have s.runners + count test s.executed

  turned-IsKept :
      (n i : ℕ) (s : System) (r : Runner) (new done : List Task)
      → i < length s.runners
      → IsKept n s
      → has r + count test done ≡ has (runner s i) + count test new
      → IsKept n (turned s i r new done)
  turned-IsKept n i s r new done l h e = omega (
    arith,
    all_have-set s.runners i r (resting (new_p i)) l,
    count-append test new s.pushed,
    count-append test done s.executed,
  )

  idle_hands :
      (n i : ℕ) (s : System) (a : Activity) (k : ℕ)
      → i < length s.runners
      → IsKept n s
      → (runner s i).activity ≡ stealing k
      → in_hand a ≡ []
      → IsKept n (turned s i (becomes a (runner s i)) [] [])
  idle_hands n i s a k l h is nothing =
      turned-IsKept n i s (becomes a (runner s i)) [] [] l h (rw (is, nothing) refl)

  stolen-has :
      (p : P) (stolen : List Task) (q : P)
      → IsOrdered p
      → steal_half p ≡ (stolen, q)
      → count test p.local_queue ≡ count test stolen + count test q.local_queue
  stolen-has p stolen q h e =
      let (s, size, same) = steal_half-Stolen p h in
      let found : count test p.local_queue
          ≡ count test (steal_half p).0 + count test (steal_half p).1.local_queue =
        omega (
          arith,
          count-append test (steal_half p).0 (steal_half p).1.local_queue,
          count-perm test s.same,
        ) in
      rw e at found

  others :
      (i k : ℕ) (s : System) (a : Runner)
      → (runner s k).p.id ≢ (runner s i).p.id
      → (if k == i then a else runner s i) ≡ runner s i
  others i k s a other = elim (Bool-cases (k == i)) [
    | inl same ↦
        let e : k ≡ i = (==_iff k i).0 same in absurd (other (ap (λ j. (runner s j).p.id) e))
    | inr apart ↦ rw apart refl
  ]

  Step-IsKept : (n : ℕ) {s t : System} → AllFine s.runners → IsKept n s → Step s t → IsKept n t
  Step-IsKept n {s} fine h (fetches i t l) = turned-IsKept n i s _ (t ∷ []) [] l h (
      omega (
        arith,
        push-has t (runner s i).p (IsFine-get_or s.runners i (resting (new_p i)) l fine).ordered,
      ))
  Step-IsKept n {s} fine h (turns i r new done l turn) =
      turned-IsKept n i s r new done l h (Turn-has (IsFine-get_or s.runners i _ l fine) turn)
  Step-IsKept n {s} fine h (passes i k l l' is why) =
      idle_hands n i s (stealing (suc k)) k l h is refl
  Step-IsKept n {s} fine h (steals i k t ts q l l' is other e) =
      let r' : Runner = record (runner s k) { p = q } in
      let g = IsFine-get_or s.runners k (resting (new_p k)) l' fine in
      let apart : get_or (set s.runners k r') i (resting (new_p i)) ≡ runner s i =
        get_or-set (resting (new_p i)) s.runners k i r' l' ∙ others i k s r' other in
      omega (
        arith,
        all_have-set s.runners k r' (resting (new_p k)) l',
        all_have-set (set s.runners k r') i (becomes (carrying t ts) (runner s i))
            (resting (new_p i)) (omega (arith, length-set s.runners k r')),
        ap has apart,
        ap (λ a. count test (in_hand a)) is,
        stolen-has (runner s k).p (t ∷ ts) q g.ordered e,
      )
  Step-IsKept n {s} fine h (gives_up i k l over is) = idle_hands n i s waiting k l h is refl

  Reachable-IsKept :
      (n : ℕ) {s t : System} → AllFine s.runners → IsKept n s → Reachable s t → IsKept n t
  Reachable-IsKept n fine h here = h
  Reachable-IsKept n fine h (next r step) =
      Step-IsKept n (Reachable-AllFine fine r) (Reachable-IsKept n fine h r) step

  rested-all_have : (ps : List P) → all_have (rested ps) ≡ held test ps
  rested-all_have [] = refl
  rested-all_have (p ∷ r) = omega (arith, rested-all_have r)

-- However the processors, their thefts and the fetcher interleave: of the tasks that pass a test, as
-- many were in the queues at the start or have been pushed since as are in a queue, in the hands of
-- a processor, or executed. So no task is lost and none is executed twice for one push.
pub Reachable-tasks :
    (ps : List P) (s : System) (test : Task → Bool)
    → AllOrdered ps
    → Reachable (started ps) s
    → held test ps + count test s.pushed ≡ all_have test s.runners + count test s.executed
Reachable-tasks ps s test h r =
    Reachable-IsKept test (held test ps) (rested-AllFine ps h)
      (omega (arith, rested-all_have test ps)) r
