-- ===== src/Processor.antt =====
-- scheduler/internal/core/p.go: a processor with its local queue, and workSteal of
-- scheduler.go. The mutex of a queue makes each method one step. `woken` is the token in
-- wakeCh, a channel of capacity 1; `stopped` is the closed stopCh.
pub mod Steal
pub mod Schedule
pub mod Round
use go_flash_job.Base.{
  ℕ, zero, suc, ◌/◌, Bool, true, false, Option, none, some, List, ◌∷◌, ◌==◌, if◌then◌else◌, length,
  get_or, set, ℤ, ◌-ℤ◌, leb_ℤ, [],
}
use go_flash_job.Model.{Task}
use go_flash_job.Heap
use go_flash_job.TaskHeap.{task_order}

pub record P : Type 0 where
  pub id : ℕ
  pub local_queue : List Task
  pub woken : Bool
  pub stopped : Bool

-- NewP
unfoldable pub new_p : ℕ → P
new_p id = record { id = id; local_queue = []; woken = false; stopped = false }

unfoldable pub wake : P → P
wake p = record p { woken = true }

-- Push
unfoldable pub push : Task → P → P
unfolding wake
push t p = wake (record p { local_queue = Heap.push task_order p.local_queue t })

push_all : List Task → List Task → List Task
push_all [] queue = queue
push_all (t ∷ r) queue = push_all r (Heap.push task_order queue t)

-- PushBatch
unfoldable pub push_batch : List Task → P → P
unfolding wake push_all
push_batch ts p = wake (record p { local_queue = push_all ts p.local_queue })

-- The loop of StealHalf: `n` times heap.Pop. On an empty heap, which it never meets, it stops.
unfoldable pub pop_times : ℕ → List Task → List Task × List Task
pop_times zero queue = ([], queue)
pop_times (suc n) queue = elim (Heap.pop task_order queue) [
  | none ↦ ([], queue)
  | some (t, rest) ↦ let (stolen, left) = pop_times n rest in (t ∷ stolen, left)
]

-- StealHalf; nil is the empty list.
unfoldable pub steal_half : P → List Task × P
unfolding pop_times
steal_half p =
    let (stolen, left) = pop_times (length p.local_queue / 2) p.local_queue in
    (stolen, record p { local_queue = left })

-- LocalLen
abbrev pub local_len : P → ℕ
local_len p = length p.local_queue

-- workSteal: the first other processor that has tasks to give.
unfoldable pub work_steal : ℕ → List P → List Task × List P
unfolding steal_half
work_steal thief [] = ([], [])
work_steal thief (p ∷ r) =
    let (later, r') = work_steal thief r in
    let (stolen, p') = steal_half p in
    if p.id == thief
    then (later, p ∷ r')
    else elim stolen [ [] ↦ (later, p' ∷ r') | t ∷ ts ↦ (t ∷ ts, p' ∷ r) ]

-- schedule after workSteal: the first stolen task is returned, PushBatch takes the others.
after_steal : ℕ → List Task × List P → Option Task × List P
unfolding push_batch
after_steal i ([], ps) = (none, ps)
after_steal i (t ∷ ts, ps) = (some t, set ps i (push_batch ts (get_or ps i (new_p i))))

-- schedule after heap.Pop on the local queue; the source tests its length first.
after_pop : ℕ → List P → P → Option (Task × List Task) → Option Task × List P
unfolding work_steal after_steal
after_pop i ps p (some (t, rest)) = (some t, set ps i (record p { local_queue = rest }))
after_pop i ps p none = after_steal i (work_steal p.id ps)

-- schedule, for the processor at index `i` of the scheduler.
unfoldable pub schedule : ℕ → List P → Option Task × List P
unfolding after_pop
schedule i ps =
    let p = get_or ps i (new_p i) in after_pop i ps p (Heap.pop task_order p.local_queue)

-- What Run does in a round: wait for a token, run a task, or wait until the top of the heap is due.
pub data Decision : Type 0 where
  wait_wake : Decision
  run_task : Task → Decision
  wait_seconds : ℤ → Decision

-- With the local queue empty the task that schedule finds is run at once.
decide_empty : Option Task × List P → Decision × List P
decide_empty (none, ps) = (wait_wake, ps)
decide_empty (some t, ps) = (run_task t, ps)

-- The top of the heap is popped and run if it is due, and waited for if it is not.
decide_top : ℕ → ℤ → List P → P → Task → Option (Task × List Task) → Decision × List P
unfolding ◌-ℤ◌
decide_top i now ps p top popped =
    if leb_ℤ top.trigger_time now
    then elim popped [
      | none ↦ (wait_wake, ps)
      | some (t, rest) ↦ (run_task t, set ps i (record p { local_queue = rest }))
    ]
    else (wait_seconds (top.trigger_time -ℤ now), ps)

-- The body of Run's loop, up to the call of executeTask or the wait.
unfoldable pub run_round : ℕ → ℤ → List P → Decision × List P
unfolding schedule decide_empty decide_top
run_round i now ps =
    let p = get_or ps i (new_p i) in
    elim (Heap.peek task_order p.local_queue) [
      | none ↦ decide_empty (schedule i ps)
      | some top ↦ decide_top i now ps p top (Heap.pop task_order p.local_queue)
    ]
