-- ===== src/Logger.antt =====
-- logger/internal/store/buffer.go: the buffer of the logger and its bounded queue. The mutex makes
-- each of these functions one step; what a step drops is part of its result.
pub mod Disk
pub mod Lines
pub mod Append
pub mod Others
pub mod Free
pub mod Whole
pub mod Flow
pub mod Bounds
pub mod Logged
pub mod Clean
pub mod Expired
pub mod Message
pub mod Receive
use Prim.Native.String.{String}
use go_flash_job.Base.{
  ℕ, zero, suc, ◌+◌, ◌-◌, ◌*◌, ◌/◌, ◌%◌, ◌^◌, ◌≤◌, ◌<◌, ◌≡◌, refl, sym, ap, ◌∙◌, ◌≢◌, ◌↔◌, ◌⊎◌, inl,
  inr, Bool, true, false, not, ◌&&◌, ◌||◌, Option, none, some, List, [], ◌∷◌, ◌++◌, map, Mem, Perm,
  arith, ltb, leb, ◌==◌, if◌then◌else◌, Bool-cases, Option-cases, length, get_or, set, take,
  length-append, length-set, length-perm, ℤ, pos, negsuc, pos_part, neg_part, ◌+ℤ◌, ◌-ℤ◌, ◌≤ℤ◌,
  ltb_ℤ, leb_ℤ, ◌==ℤ◌, +ℤ_parts, eq_of_parts, count, count-append, count-perm, one_if, ltb→lt,
  lt→ltb, leb→le, ==_iff,
}
use go_flash_job.Model.{
  TaskStatus, pending, ready, dispatched, running, success, retry, dead, unknown, priority_high,
  priority_medium, priority_low, default_max_retry, Task, TaskCommand, Event, trigger, dispatch,
  start, succeed, fail, retry_event, ExecutionLog, Error, network, illegal_transition, cas_failed,
  message, JobLog,
}

abbrev pub batch_size : ℕ
batch_size = 100

abbrev pub flush_queue_size : ℕ
flush_queue_size = 256

abbrev pub flush_workers : ℕ
flush_workers = 2

-- The part of LogBuffer that `mu` guards, and the channel, oldest batch first.
pub record LogBuffer : Type 0 where
  pub buffer : List JobLog
  pub flush_queue : List (List JobLog)

abbrev pub new_buffer : LogBuffer
new_buffer = record { buffer = []; flush_queue = [] }

-- flushLocked: the batch goes to the queue, or is dropped when the queue is full.
unfoldable pub flush_locked : LogBuffer → LogBuffer × List JobLog
flush_locked b =
    if length b.buffer == 0
    then (b, [])
    else if ltb (length b.flush_queue) flush_queue_size
    then (record b { buffer = []; flush_queue = b.flush_queue ++ b.buffer ∷ [] }, [])
    else (record b { buffer = [] }, b.buffer)

-- AddLog, once the storage is started.
unfoldable pub add_log : JobLog → LogBuffer → LogBuffer × List JobLog
unfolding flush_locked
add_log entry b =
    let grown : LogBuffer = record b { buffer = b.buffer ++ entry ∷ [] } in
    if leb batch_size (length grown.buffer) then flush_locked grown else (grown, [])

-- A worker takes the oldest batch of the queue.
unfoldable pub take_batch : LogBuffer → Option (List JobLog × LogBuffer)
take_batch b = elim b.flush_queue [
  | [] ↦ none
  | batch ∷ rest ↦ some (batch, record b { flush_queue = rest })
]
