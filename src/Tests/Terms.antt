-- ===== src/Tests/Terms.antt =====
-- A scheduler loses the leadership while runAsLeader still starts its goroutines.
use go_flash_job.Base.{◌≤◌, ◌≡◌, refl, Bool, true, [], ◌∷◌, count}
use go_flash_job.Lifecycle.Terms.{
  Loop, fetcher, stale_pending, cleaner, monitor, processor, loops, electing, returned, starting,
  Scheduler, started, elects, recovers, starts, ends, loses, Reachable, here, next,
}
use go_flash_job.Lifecycle.Terms.Drained.{how_many, AllOfTerm, Reachable-drained}

abbrev cut_short : Scheduler
cut_short = record started {
  stage = starting (processor 1 ∷ stale_pending ∷ cleaner ∷ monitor ∷ []);
  term = 1;
  wg = 1;
  running = (1, processor 0) ∷ [];
  lead_cancelled = true;
}

the_term : Reachable started cut_short
unfolding loops
the_term =
    next
      (next
        (next (next (next (next here (elects refl)) (recovers refl)) (starts fetcher _ refl))
          (starts (processor 0) _ refl))
        loses)
      (ends ((1, processor 0) ∷ []) [] (1, fetcher) refl refl)

Reachable-drained_example :
    ((test : Loop → Bool) → how_many test cut_short.running ≤ count test loops)
    × AllOfTerm 1 cut_short.running
    × (cut_short.stage ≡ electing → cut_short.running ≡ [])
    × (cut_short.stage ≡ returned → cut_short.running ≡ [])
Reachable-drained_example = Reachable-drained cut_short the_term
