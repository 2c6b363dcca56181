-- ===== src/Tests/Queues.antt =====
-- Heaps, processors and retry delays.
use go_flash_job.Model.{Task}
use go_flash_job.Base.{
  zero, suc, inl, inr, pos, List, [], ◌∷◌, ◌≡◌, refl, arith, some, ◌*◌, suc, false,
}
use go_flash_job.Heap
use go_flash_job.Heap.Order.{IsHeap}
use go_flash_job.Heap.Correct.{pop-Popped, Popped}
use go_flash_job.TaskHeap.{task_order}
use go_flash_job.Processor.{P, work_steal, run_round, run_task}
use go_flash_job.Processor.Steal.{StealResult, work_steal-StealResult, AllOrdered, NothingToSteal}
use go_flash_job.Processor.Round.{run_round_early, is_due}
use go_flash_job.Backoff.{millisecond, backoff}
use go_flash_job.Backoff.Bounds.{backoff_overflow}
use go_flash_job.Tests.Samples.{task_a, task_b, idle_busy, busy_p, empty_p}

pair-IsHeap : IsHeap task_order (task_a ∷ task_b ∷ [])
unfolding task_order
pair-IsHeap zero p q = absurd (omega arith)
pair-IsHeap (suc zero) p q = refl
pair-IsHeap (suc (suc c)) p q = absurd (omega arith)

nil-IsHeap : IsHeap task_order []
nil-IsHeap c p q = absurd (omega arith)

pub idle_busy-AllOrdered : AllOrdered idle_busy
idle_busy-AllOrdered = (nil-IsHeap, (pair-IsHeap, tt))

busy_idle-AllOrdered : AllOrdered (busy_p ∷ empty_p ∷ [])
busy_idle-AllOrdered = (pair-IsHeap, (nil-IsHeap, tt))

backoff_overflow_example : backoff (pos 60) 7 ≡ pos (7 * millisecond)
backoff_overflow_example = backoff_overflow 59 7 (omega arith)

pop-Popped_example :
    (x : Task) × (h' : List Task) × (Heap.pop task_order (task_a ∷ task_b ∷ []) ≡ some (x, h'))
    × Popped task_order (task_a ∷ task_b ∷ []) x h'
pop-Popped_example = pop-Popped task_order (task_a ∷ task_b ∷ []) pair-IsHeap (omega arith)

work_steal-StealResult_example :
    StealResult 0 idle_busy (work_steal 0 idle_busy).0 (work_steal 0 idle_busy).1
work_steal-StealResult_example = work_steal-StealResult 0 idle_busy idle_busy-AllOrdered

two_held : ¬ NothingToSteal 0 idle_busy
two_held (h, (inl e, u)) = absurd (omega arith)
two_held (h, (inr l, u)) = absurd (omega arith)

run_round_early_example :
    (t : Task) × (ps' : List P) × (run_round 0 (pos 50) idle_busy ≡ (run_task t, ps'))
    × (is_due (pos 50) t ≡ false)
run_round_early_example =
    run_round_early 0 (pos 50) idle_busy (omega arith) idle_busy-AllOrdered refl refl two_held
