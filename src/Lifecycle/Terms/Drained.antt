-- ===== src/Lifecycle/Terms/Drained.antt =====
-- The goroutines of one term are gone before the next term starts its own.
use go_flash_job.Base.{
  ℕ, suc, ◌+◌, ◌≤◌, ◌≡◌, refl, sym, ap, ◌∙◌, Bool, true, false, List, [], ◌∷◌, ◌++◌, arith, length,
  length-append, count, one_if,
}
use go_flash_job.Lifecycle.Terms.{
  Loop, loops, Stage, electing, recovering, draining, returned, starting, Scheduler, started, Step,
  elects, recovers, starts, waits, ends, drained, loses, signals, stops, leaves, Reachable, here,
  next,
}

-- The goroutines that a stage still has to start.
abbrev to_start : Stage → List Loop
to_start recovering = loops
to_start (starting r) = r
to_start _ = []

-- The stages in which no goroutine runs.
abbrev is_quiet : Stage → Bool
is_quiet electing = true
is_quiet recovering = true
is_quiet returned = true
is_quiet draining = false
is_quiet (starting r) = false

-- How many of the running goroutines pass a test.
abbrev pub how_many : (Loop → Bool) → List (ℕ × Loop) → ℕ
how_many test [] = 0
how_many test ((n, l) ∷ r) = one_if (test l) + how_many test r

-- Every goroutine is of the term.
abbrev pub AllOfTerm : ℕ → List (ℕ × Loop) → Type 0
AllOfTerm n [] = Unit
AllOfTerm n ((m, l) ∷ r) = (m ≡ n) × AllOfTerm n r

record IsSound (s : Scheduler) : Type 0 where
  counted : s.wg ≡ length s.running
  quiet : is_quiet s.stage ≡ true → length s.running ≡ 0
  of_term : AllOfTerm s.term s.running
  once :
      (test : Loop → Bool)
      → how_many test s.running + count test (to_start s.stage) ≤ count test loops

AllOfTerm-without :
    (n : ℕ) (before after : List (ℕ × Loop)) (x : ℕ × Loop)
    → AllOfTerm n (before ++ x ∷ after)
    → AllOfTerm n (before ++ after)
AllOfTerm-without n [] after x h = h.1
AllOfTerm-without n (y ∷ before) after x h = (h.0, AllOfTerm-without n before after x h.1)

AllOfTerm-nil : (n : ℕ) (r : List (ℕ × Loop)) → length r ≡ 0 → AllOfTerm n r
AllOfTerm-nil n [] h = tt
AllOfTerm-nil n (x ∷ r) h = absurd (omega arith)

how_many-without :
    (test : Loop → Bool) (before after : List (ℕ × Loop)) (x : ℕ × Loop)
    → how_many test (before ++ after) ≤ how_many test (before ++ x ∷ after)
how_many-without test [] after x = omega arith
how_many-without test (y ∷ before) after x = omega (arith, how_many-without test before after x)

how_many-nil : (test : Loop → Bool) (r : List (ℕ × Loop)) → length r ≡ 0 → how_many test r ≡ 0
how_many-nil test [] h = refl
how_many-nil test (x ∷ r) h = absurd (omega arith)

length-without :
    (before after : List (ℕ × Loop)) (x : ℕ × Loop)
    → length (before ++ x ∷ after) ≡ suc (length (before ++ after))
length-without before after x =
    omega (arith, length-append before (x ∷ after), length-append before after)

Step-IsSound : {s t : Scheduler} → IsSound s → Step s t → IsSound t
Step-IsSound {s} h (elects is) =
    let none_runs = h.quiet (ap is_quiet is) in
    record {
      counted = h.counted;
      quiet = λ q. none_runs;
      of_term = AllOfTerm-nil (suc s.term) s.running none_runs;
      once = λ test. omega (arith, how_many-nil test s.running none_runs);
    }
Step-IsSound {s} h (recovers is) = record {
  counted = h.counted;
  quiet = λ q. absurd cc;
  of_term = h.of_term;
  once = λ test. rw is at (h.once test);
}
Step-IsSound {s} h (starts l r is) = record {
  counted = ap suc h.counted;
  quiet = λ q. absurd cc;
  of_term = (refl, h.of_term);
  once = λ test. omega (arith, rw is at (h.once test));
}
Step-IsSound {s} h (waits is) = record {
  counted = h.counted;
  quiet = λ q. absurd cc;
  of_term = h.of_term;
  once = λ test. rw is at (h.once test);
}
Step-IsSound {s} h (ends before after x at may) =
    let size = length-without before after x in
    let same = ap (λ (r : List (ℕ × Loop)). length r) at in
    record {
      counted = omega (arith, h.counted, size, same);
      quiet = λ q. absurd (omega (arith, h.quiet q, size, same));
      of_term = AllOfTerm-without s.term before after x (rw at at h.of_term);
      once = λ test.
          omega (arith, how_many-without test before after x, ap (how_many test) at, h.once test);
    }
Step-IsSound {s} h (drained is zero_left) =
    let none_runs : length s.running ≡ 0 = sym h.counted ∙ zero_left in
    record {
      counted = h.counted;
      quiet = λ q. none_runs;
      of_term = h.of_term;
      once = λ test. omega (arith, how_many-nil test s.running none_runs);
    }
Step-IsSound {s} h loses = record {
  counted = h.counted;
  quiet = h.quiet;
  of_term = h.of_term;
  once = h.once;
}
Step-IsSound {s} h signals = record {
  counted = h.counted;
  quiet = h.quiet;
  of_term = h.of_term;
  once = h.once;
}
Step-IsSound {s} h stops = record {
  counted = h.counted;
  quiet = h.quiet;
  of_term = h.of_term;
  once = h.once;
}
Step-IsSound {s} h (leaves is end) =
    let none_runs = h.quiet (ap is_quiet is) in
    record {
      counted = h.counted;
      quiet = λ q. none_runs;
      of_term = h.of_term;
      once = λ test. omega (arith, how_many-nil test s.running none_runs);
    }

Reachable-IsSound : {s t : Scheduler} → IsSound s → Reachable s t → IsSound t
Reachable-IsSound h here = h
Reachable-IsSound h (next r step) = Step-IsSound (Reachable-IsSound h r) step

started-IsSound : IsSound started
started-IsSound = record {
  counted = refl;
  quiet = λ q. refl;
  of_term = tt;
  once = λ test. omega arith;
}

-- However often a scheduler gains and loses the leadership, and however its goroutines come to
-- their end: of each kind it has at most as many running goroutines as one call of runAsLeader
-- starts, so never two fetchers; all of them were started in the term that it is in; and none runs
-- while it waits for the leadership or after Start has returned.
pub Reachable-drained :
    (s : Scheduler)
    → Reachable started s
    → ((test : Loop → Bool) → how_many test s.running ≤ count test loops)
      × AllOfTerm s.term s.running
      × (s.stage ≡ electing → s.running ≡ [])
      × (s.stage ≡ returned → s.running ≡ [])
Reachable-drained s r =
    let h = Reachable-IsSound started-IsSound r in
    (
      λ test. omega (arith, h.once test),
      h.of_term,
      λ is. nil_of_size s.running (h.quiet (ap is_quiet is)),
      λ is. nil_of_size s.running (h.quiet (ap is_quiet is)),
    )
  where
    nil_of_size : (l : List (ℕ × Loop)) → length l ≡ 0 → l ≡ []
    nil_of_size [] e = refl
    nil_of_size (x ∷ l) e = absurd (omega arith)
