-- ===== src/Lifecycle.antt =====
-- scheduler/internal/core/scheduler.go: what a scheduler does when it starts to lead, the rounds of
-- its background loops, and its end. An error that a loop logs is ignored.
pub mod Rounds
pub mod Kept
pub mod Stop
pub mod Terms
use go_flash_job.Base.{
  ℕ, zero, suc, ◌+◌, ◌-◌, ◌*◌, ◌/◌, ◌%◌, ◌^◌, ◌≤◌, ◌<◌, ◌≡◌, refl, sym, ap, ◌∙◌, ◌≢◌, ◌↔◌, ◌⊎◌, inl,
  inr, Bool, true, false, not, ◌&&◌, ◌||◌, Option, none, some, List, [], ◌∷◌, ◌++◌, map, Mem, Perm,
  arith, ltb, leb, ◌==◌, if◌then◌else◌, Bool-cases, Option-cases, length, get_or, set, take,
  length-append, length-set, length-perm, ℤ, pos, negsuc, pos_part, neg_part, ◌+ℤ◌, ◌-ℤ◌, ◌≤ℤ◌,
  ltb_ℤ, leb_ℤ, ◌==ℤ◌, +ℤ_parts, eq_of_parts, count, count-append, count-length, count-le,
  count-perm, one_if, ltb→lt, lt→ltb, leb→le, ==_iff,
}
use go_flash_job.Redis.{Redis}
use go_flash_job.Redis.World.{
  Link, up, down, lost, Res, ok, err, head_link, tail_links, World, M, ret, fail_with,
  continue_with, ◌>>=◌, ◌>>◌, caught, attempt, ignore_error, call_on, call, write, read,
  current_time, send_mq_on, send_mq, send_kafka_on, send_kafka, call_keeps, bind_keeps,
  send_kafka-db,
}
use go_flash_job.Scheduler.{recover_pending_tasks, recover_stale_pending}
use go_flash_job.Recovery.{recover_stale_tasks, monitor_stale_states, clean_terminal_states}
use go_flash_job.Leader.{LockServer, LeaderElection, step_down, release, try_acquire}

-- staleTimeout and the age at which a terminal state is cleared, in seconds.
abbrev pub stale_timeout : ℤ
stale_timeout = pos 120

abbrev pub terminal_age : ℤ
terminal_age = pos 3600

-- What runs beside the fetcher and the processors.
pub data Round : Type 0 where
  begins requeues monitors cleans : Round

-- Which of the two goroutines comes first when a scheduler ends.
pub data StopOrder : Type 0 where
  renew_loop_first stop_first : StopOrder

module _ (R : Redis) where
  -- runAsLeader, before it starts the loops.
  unfoldable pub begin_leading : M R (Unit {0})
  unfolding recover_pending_tasks recover_stale_tasks
  begin_leading = recover_pending_tasks R >> ignore_error (recover_stale_tasks R)

  -- A round of staleStateMonitorLoop
  unfoldable pub stale_monitor_round : M R (Unit {0})
  unfolding monitor_stale_states
  stale_monitor_round = ignore_error (monitor_stale_states R stale_timeout)

  -- A round of terminalStateCleanerLoop
  unfoldable pub terminal_clean_round : M R (Unit {0})
  unfolding clean_terminal_states ◌-ℤ◌
  terminal_clean_round = do
    now ← current_time
    ignore_error (clean_terminal_states R (now -ℤ terminal_age))

  unfoldable pub background : Round → M R (Unit {0})
  unfolding begin_leading recover_stale_pending stale_monitor_round terminal_clean_round
  background begins = begin_leading
  background requeues = recover_stale_pending R
  background monitors = stale_monitor_round
  background cleans = terminal_clean_round

  -- Rounds in any order, each over the network that is then there.
  unfoldable pub run_rounds : List Round → M R (Unit {0})
  unfolding background
  run_rounds [] = ret tt
  run_rounds (r ∷ rs) = background r >> run_rounds rs

module _ (S : LockServer) where
  -- WaitForLeadership: one attempt each second, with the link that it meets, until one gives the
  -- lock or the attempts are over; with the time at which it ends.
  unfoldable pub wait_for_leadership :
      List Link → ℕ → LeaderElection → S.Db → LeaderElection × S.Db × ℕ
  unfolding try_acquire
  wait_for_leadership [] now n d = (n, d, now)
  wait_for_leadership (l ∷ r) now n d =
      let (n', d') = try_acquire S l now n d in
      let later = wait_for_leadership r (suc now) n' d' in
      if n'.is_leader then (n', d', now) else later

  -- The end of the scheduler program: its signal cancels the context, at which renewLoop clears
  -- isLeader, and makes the program call Stop, which calls Release.
  unfoldable pub shut_down : StopOrder → Link → ℕ → LeaderElection → S.Db → LeaderElection × S.Db
  unfolding release
  shut_down renew_loop_first l now n d = release S l now (step_down n) d
  shut_down stop_first l now n d = let (n', d') = release S l now n d in (step_down n', d')
