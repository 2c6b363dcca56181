-- ===== src/Run.antt =====
-- scheduler/internal/core/p.go: Run of every processor as steps, which interleave. Each method of
-- the local queue holds its mutex, so it is one step; what a goroutine does between two of them is
-- its activity. `pushed` and `executed` are the history.
pub mod Awake
pub mod Tasks
use go_flash_job.Base.{
  ℕ, zero, suc, ◌+◌, ◌-◌, ◌*◌, ◌/◌, ◌%◌, ◌^◌, ◌≤◌, ◌<◌, ◌≡◌, refl, sym, ap, ◌∙◌, ◌≢◌, ◌↔◌, ◌⊎◌, inl,
  inr, Bool, true, false, not, ◌&&◌, ◌||◌, Option, none, some, List, [], ◌∷◌, ◌++◌, map, Mem, Perm,
  arith, ltb, leb, ◌==◌, if◌then◌else◌, Bool-cases, Option-cases, length, get_or, set, take,
  length-append, length-set, length-perm, ℤ, pos, negsuc, pos_part, neg_part, ◌+ℤ◌, ◌-ℤ◌, ◌≤ℤ◌,
  ltb_ℤ, leb_ℤ, ◌==ℤ◌, +ℤ_parts, eq_of_parts, count, count-append, count-length, count-le,
  count-perm, one_if, ltb→lt, lt→ltb, leb→le, ==_iff,
}
use go_flash_job.Model.{Task}
use go_flash_job.Heap
use go_flash_job.TaskHeap.{task_order}
use go_flash_job.Processor.{P, new_p, push, push_batch, steal_half}
use go_flash_job.Scheduler.{delayed}

-- At the head of the loop; about to pop the top, which it has seen to be due; in schedule, with the
-- local queue seen empty; at processor `k` of workSteal; with stolen tasks in its hands; in
-- executeTask; waiting for a token; and waiting for one or for a time.
pub data Activity : Type 0 where
  idle popping scheduling waiting : Activity
  stealing : ℕ → Activity
  carrying : Task → List Task → Activity
  executing : Task → Activity
  sleeping : ℤ → Activity

pub record Runner : Type 0 where
  pub p : P
  pub activity : Activity

pub record System : Type 0 where
  pub runners : List Runner
  pub pushed : List Task
  pub executed : List Task

abbrev pub resting : P → Runner
resting p = record { p = p; activity = idle }

abbrev pub runner : System → ℕ → Runner
runner s i = get_or s.runners i (resting (new_p i))

abbrev pub turned : System → ℕ → Runner → List Task → List Task → System
turned s i r new done = record {
  runners = set s.runners i r;
  pushed = new ++ s.pushed;
  executed = done ++ s.executed;
}

abbrev pub becomes : Activity → Runner → Runner
becomes a r = record r { activity = a }

abbrev pub runs : Task → List Task → Runner → Runner
runs t rest r = record { p = record r.p { local_queue = rest }; activity = executing t }

-- What a goroutine does alone, with the tasks that it pushes and that it has executed.
pub data Turn (r : Runner) : Runner → List Task → List Task → Type 0 where
  sees_due :
      (now : ℤ) (top : Task)
      → r.activity ≡ idle
      → Heap.peek task_order r.p.local_queue ≡ some top
      → leb_ℤ top.trigger_time now ≡ true
      → Turn r (becomes popping r) [] []
  sees_early :
      (now : ℤ) (top : Task)
      → r.activity ≡ idle
      → Heap.peek task_order r.p.local_queue ≡ some top
      → leb_ℤ top.trigger_time now ≡ false
      → Turn r (becomes (sleeping top.trigger_time) r) [] []
  sees_none :
      r.activity ≡ idle
      → Heap.peek task_order r.p.local_queue ≡ none
      → Turn r (becomes scheduling r) [] []
  pops :
      (t : Task) (rest : List Task)
      → r.activity ≡ popping
      → Heap.pop task_order r.p.local_queue ≡ some (t, rest)
      → Turn r (runs t rest r) [] []
  takes :
      (t : Task) (rest : List Task)
      → r.activity ≡ scheduling
      → Heap.pop task_order r.p.local_queue ≡ some (t, rest)
      → Turn r (runs t rest r) [] []
  looks_around :
      r.activity ≡ scheduling → r.p.local_queue ≡ [] → Turn r (becomes (stealing 0) r) [] []
  keeps :
      (t : Task) (ts : List Task)
      → r.activity ≡ carrying t ts
      → Turn r (record { p = push_batch ts r.p; activity = executing t }) [] []
  finishes : (t : Task) → r.activity ≡ executing t → Turn r (becomes idle r) [] (t ∷ [])
  -- The message could not be published.
  puts_back :
      (now : ℤ) (frac jitter : ℕ) (t : Task)
      → r.activity ≡ executing t
      → Turn r
          (resting (push (delayed now frac jitter t) r.p))
          (delayed now frac jitter t ∷ [])
          (t ∷ [])
  wakes :
      r.activity ≡ waiting
      → r.p.woken ≡ true
      → Turn r (resting (record r.p { woken = false })) [] []
  wakes_early :
      (u : ℤ)
      → r.activity ≡ sleeping u
      → r.p.woken ≡ true
      → Turn r (resting (record r.p { woken = false })) [] []
  expires : (u : ℤ) → r.activity ≡ sleeping u → Turn r (becomes idle r) [] []

-- A push by fetcherLoop, a turn, and the loop of workSteal: it passes the thief itself and a
-- processor that has nothing to give, takes half of the queue of one that has, or comes to its end.
pub data Step (s : System) : System → Type 0 where
  fetches :
      (i : ℕ) (t : Task)
      → i < length s.runners
      → Step s (turned s i (record (runner s i) { p = push t (runner s i).p }) (t ∷ []) [])
  turns :
      (i : ℕ) (r : Runner) (new done : List Task)
      → i < length s.runners
      → Turn (runner s i) r new done
      → Step s (turned s i r new done)
  passes :
      (i k : ℕ)
      → i < length s.runners
      → k < length s.runners
      → (runner s i).activity ≡ stealing k
      → ((runner s k).p.id ≡ (runner s i).p.id) ⊎ ((steal_half (runner s k).p).0 ≡ [])
      → Step s (turned s i (becomes (stealing (suc k)) (runner s i)) [] [])
  steals :
      (i k : ℕ) (t : Task) (ts : List Task) (q : P)
      → i < length s.runners
      → k < length s.runners
      → (runner s i).activity ≡ stealing k
      → (runner s k).p.id ≢ (runner s i).p.id
      → steal_half (runner s k).p ≡ (t ∷ ts, q)
      → Step s (
          turned
            (turned s k (record (runner s k) { p = q }) [] [])
            i
            (becomes (carrying t ts) (runner s i))
            []
            [])
  gives_up :
      (i k : ℕ)
      → i < length s.runners
      → length s.runners ≤ k
      → (runner s i).activity ≡ stealing k
      → Step s (turned s i (becomes waiting (runner s i)) [] [])

pub data Reachable (s : System) : System → Type 0 where
  here : Reachable s s
  next : {t u : System} → Reachable s t → Step t u → Reachable s u

-- The processors as NewScheduler makes them.
abbrev pub rested : List P → List Runner
rested [] = []
rested (p ∷ r) = resting p ∷ rested r

abbrev pub started : List P → System
started ps = record { runners = rested ps; pushed = []; executed = [] }
