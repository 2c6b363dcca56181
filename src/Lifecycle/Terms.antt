-- ===== src/Lifecycle/Terms.antt =====
-- scheduler/internal/core/scheduler.go: Start and runAsLeader as steps: the terms in which a
-- scheduler leads, and the goroutines of each. What the goroutines do is modelled elsewhere.
pub mod Drained
use go_flash_job.Base.{
  ℕ, zero, suc, ◌+◌, ◌-◌, ◌*◌, ◌/◌, ◌%◌, ◌^◌, ◌≤◌, ◌<◌, ◌≡◌, refl, sym, ap, ◌∙◌, ◌≢◌, ◌↔◌, ◌⊎◌, inl,
  inr, Bool, true, false, not, ◌&&◌, ◌||◌, Option, none, some, List, [], ◌∷◌, ◌++◌, map, Mem, Perm,
  arith, ltb, leb, ◌==◌, if◌then◌else◌, Bool-cases, Option-cases, length, get_or, set, take,
  length-append, length-set, length-perm, ℤ, pos, negsuc, pos_part, neg_part, ◌+ℤ◌, ◌-ℤ◌, ◌≤ℤ◌,
  ltb_ℤ, leb_ℤ, ◌==ℤ◌, +ℤ_parts, eq_of_parts, count, count-append, count-length, count-le,
  count-perm, one_if, ltb→lt, lt→ltb, leb→le, ==_iff,
}
use go_flash_job.Scheduler.{num_p}

pub data Loop : Type 0 where
  fetcher stale_pending cleaner monitor : Loop
  processor : ℕ → Loop

-- The goroutines in the order in which runAsLeader starts them.
unfoldable pub loops : List Loop
loops = fetcher ∷ processor 0 ∷ processor 1 ∷ stale_pending ∷ cleaner ∷ monitor ∷ []

-- Where Start is: in WaitForLeadership, in the recovery of runAsLeader, with some goroutines still to
-- start, in wg.Wait, or returned.
pub data Stage : Type 0 where
  electing recovering draining returned : Stage
  starting : List Loop → Stage

-- `cancelled` is the context of Start, `lead_cancelled` the leadCtx of the term, `stopped` the
-- stopCh of the processors. A goroutine is listed with the term in which it was started.
pub record Scheduler : Type 0 where
  pub stage : Stage
  pub term : ℕ
  pub wg : ℕ
  pub running : List (ℕ × Loop)
  pub cancelled : Bool
  pub lead_cancelled : Bool
  pub stopped : Bool

abbrev pub started : Scheduler
started = record {
  stage = electing;
  term = 0;
  wg = 0;
  running = [];
  cancelled = false;
  lead_cancelled = false;
  stopped = false;
}

-- A goroutine returns when leadCtx is done, and a processor also when stopCh is closed.
abbrev pub may_return : Scheduler → Loop → Bool
may_return s (processor i) = s.lead_cancelled || s.stopped
may_return s _ = s.lead_cancelled

pub data Step (s : Scheduler) : Scheduler → Type 0 where
  -- WaitForLeadership returns a new lostCh; leadCtx is a child of the context.
  elects :
      s.stage ≡ electing
      → Step s (record s { stage = recovering; term = suc s.term; lead_cancelled = s.cancelled })
  recovers : s.stage ≡ recovering → Step s (record s { stage = starting loops })
  starts :
      (l : Loop) (r : List Loop)
      → s.stage ≡ starting (l ∷ r)
      → Step s (record s { stage = starting r; wg = suc s.wg; running = (s.term, l) ∷ s.running })
  waits : s.stage ≡ starting [] → Step s (record s { stage = draining })
  -- A goroutine returns and calls wg.Done.
  ends :
      (before after : List (ℕ × Loop)) (x : ℕ × Loop)
      → s.running ≡ before ++ x ∷ after
      → may_return s x.1 ≡ true
      → Step s (record s { wg = s.wg - 1; running = before ++ after })
  -- wg.Wait returns, and runAsLeader with it.
  drained : s.stage ≡ draining → s.wg ≡ 0 → Step s (record s { stage = electing })
  -- renewLoop closes lostCh.
  loses : Step s (record s { lead_cancelled = true })
  signals : Step s (record s { cancelled = true; lead_cancelled = true })
  stops : Step s (record s { stopped = true })
  leaves : s.stage ≡ electing → s.cancelled ≡ true → Step s (record s { stage = returned })

pub data Reachable (s : Scheduler) : Scheduler → Type 0 where
  here : Reachable s s
  next : {t u : Scheduler} → Reachable s t → Step t u → Reachable s u
