-- ===== src/Model.antt =====
-- pkg/model/job.go and pkg/consts/consts.go: tasks, commands, statuses and priorities.
-- A JSON payload is an opaque text. Redis key names are kept as the names of the
-- constructors of `ZKey`, `HKey` and `SKey` in Redis.antt.
use Prim.Native.String.{String}
use go_flash_job.Base.{ℤ, pos}

-- TaskStatus. `unknown` stands for any other text that the status field may hold.
pub data TaskStatus : Type 0 where
  pending ready dispatched running success retry dead : TaskStatus
  unknown : String → TaskStatus

abbrev pub priority_high : String
priority_high = "High"

abbrev pub priority_medium : String
priority_medium = "Medium"

abbrev pub priority_low : String
priority_low = "Low"

abbrev pub default_max_retry : ℤ
default_max_retry = pos 3

pub record Task : Type 0 where
  pub id : String
  pub name : String
  pub callback_url : String
  pub trigger_time : ℤ
  pub priority : String
  pub retry_count : ℤ
  pub max_retry : ℤ
  pub timeout : ℤ
  pub payload : String
  pub enqueue_at : ℤ

pub record TaskCommand : Type 0 where
  pub id : String
  pub name : String
  pub callback_url : String
  pub trigger_time : ℤ
  pub priority : String
  pub retry_count : ℤ
  pub max_retry : ℤ
  pub timeout : ℤ
  pub payload : String

-- Event (scheduler/internal/core/fsm.go)
pub data Event : Type 0 where
  trigger dispatch start succeed fail retry_event : Event

-- ExecutionLog (executor/internal/client/consumer.go)
pub record ExecutionLog : Type 0 where
  pub job_id : String
  pub name : String
  pub callback_url : String
  pub status : ℤ
  pub cost_ms : ℤ
  pub retry : ℤ
  pub timestamp : ℤ
  pub error_msg : String

-- The errors that the code returns.
pub data Error : Type 0 where
  network : Error
  illegal_transition : TaskStatus → Event → Error
  cas_failed : String → Error
  message : String → Error

-- JobLog (pkg/model/log.go); `created_at` is the second of the time.
pub record JobLog : Type 0 where
  pub id : ℤ
  pub job_id : String
  pub name : String
  pub callback_url : String
  pub status : ℤ
  pub cost_ms : ℤ
  pub retry : ℤ
  pub error_msg : String
  pub created_at : ℤ
