-- ===== src/Tests/Runs.antt =====
-- A run of two processors: the first is idle and steals from the second.
use go_flash_job.Base.{◌+◌, ◌≡◌, refl, inl, true, [], ◌∷◌, arith, pos, count}
use go_flash_job.Heap
use go_flash_job.TaskHeap.{task_order}
use go_flash_job.Processor.{push, push_batch, steal_half}
use go_flash_job.Processor.Steal.{held}
use go_flash_job.Run.{
  popping, scheduling, stealing, carrying, executing, System, resting, runner, turned, becomes,
  sees_due, sees_none, looks_around, keeps, puts_back, fetches, turns, passes, steals, Reachable,
  here, next, started,
}
use go_flash_job.Run.Awake.{AwakeAs, Reachable-awake}
use go_flash_job.Run.Tasks.{all_have, Reachable-tasks}
use go_flash_job.Scheduler.{delayed}
use go_flash_job.Tests.Samples.{task_a, task_b, idle_busy}
use go_flash_job.Tests.Queues.{idle_busy-AllOrdered}

-- The second has seen that its first task is due.
abbrev about_to_pop : System
about_to_pop = turned (started idle_busy) 1 (becomes popping (runner (started idle_busy) 1)) [] []

abbrev seen_empty : System
seen_empty = turned about_to_pop 0 (becomes scheduling (runner about_to_pop 0)) [] []

abbrev looking : System
looking = turned seen_empty 0 (becomes (stealing 0) (runner seen_empty 0)) [] []

abbrev past_itself : System
past_itself = turned looking 0 (becomes (stealing 1) (runner looking 0)) [] []

abbrev stolen_one : System
stolen_one =
    turned
      (turned past_itself 1
        (record (runner past_itself 1) { p = (steal_half (runner past_itself 1).p).1 }) [] [])
      0 (becomes (carrying task_a []) (runner past_itself 0)) [] []

abbrev fetched : System
fetched =
    turned stolen_one 0 (record (runner stolen_one 0) { p = push task_b (runner stolen_one 0).p })
      (task_b ∷ []) []

abbrev at_work : System
at_work =
    turned fetched 0
      (record { p = push_batch [] (runner fetched 0).p; activity = executing task_a }) [] []

abbrev put_back : System
put_back =
    turned at_work 0 (resting (push (delayed (pos 100) 0 0 task_a) (runner at_work 0).p))
      (delayed (pos 100) 0 0 task_a ∷ []) (task_a ∷ [])

the_run : Reachable (started idle_busy) put_back
unfolding steal_half push push_batch task_order Heap.peek Heap.pop
the_run =
    next
      (next
        (next
          (next
            (next
              (next
                (next
                  (next here
                    (turns 1 _ [] [] (omega arith) (sees_due (pos 150) task_a refl refl refl)))
                  (turns 0 _ [] [] (omega arith) (sees_none refl refl)))
                (turns 0 _ [] [] (omega arith) (looks_around refl refl)))
              (passes 0 0 (omega arith) (omega arith) refl (inl refl)))
            (steals 0 1 task_a [] _ (omega arith) (omega arith) refl (λ e. cc) refl))
          (fetches 0 task_b (omega arith)))
        (turns 0 _ [] [] (omega arith) (keeps task_a [] refl)))
      (turns 0 _ _ _ (omega arith) (puts_back (pos 100) 0 0 task_a refl))

Reachable-awake_example : AwakeAs (runner put_back 1).activity (runner put_back 1).p
Reachable-awake_example =
    Reachable-awake idle_busy put_back 1 idle_busy-AllOrdered the_run (omega arith)

Reachable-tasks_example :
    held (λ t. true) idle_busy + count (λ t. true) put_back.pushed
    ≡ all_have (λ t. true) put_back.runners + count (λ t. true) put_back.executed
Reachable-tasks_example =
    Reachable-tasks idle_busy put_back (λ t. true) idle_busy-AllOrdered the_run
