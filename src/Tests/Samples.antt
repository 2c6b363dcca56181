-- ===== src/Tests/Samples.antt =====
-- The tasks, commands and worlds that the runs start from.
use go_flash_job.Base.{pos, List, [], ◌∷◌, false}
use go_flash_job.Model.{Task, TaskCommand, pending, ready, retry, success}
use go_flash_job.Redis.{HKey, json, global_queue, pending_queue}
use go_flash_job.Redis.World.{World, Link}
use go_flash_job.Redis.Memory.{memory, empty_db}
use go_flash_job.Status.{set_status}
use go_flash_job.Processor.{P}

abbrev pub task_a : Task
task_a = record {
  id = "a";
  name = "report";
  callback_url = "http://host/a";
  trigger_time = pos 100;
  priority = "High";
  retry_count = pos 0;
  max_retry = pos 3;
  timeout = pos 30;
  payload = "{}";
  enqueue_at = pos 90;
}

abbrev pub task_b : Task
task_b = record task_a { id = "b"; trigger_time = pos 200 }

abbrev pub command_a : TaskCommand
command_a = record {
  id = "a";
  name = "report";
  callback_url = "http://host/a";
  trigger_time = pos 100;
  priority = "High";
  retry_count = pos 0;
  max_retry = pos 3;
  timeout = pos 30;
  payload = "{}";
}

abbrev pub worn_command : TaskCommand
worn_command = record command_a { retry_count = pos 3 }

abbrev pub at : memory.Db → List Link → World memory
at d l = record { db = d; now = pos 150; links = l; mq = []; kafka = [] }

abbrev pub pending_db : memory.Db
pending_db = set_status memory task_a pending (pos 90) empty_db

abbrev pub ready_db : memory.Db
ready_db = set_status memory task_a ready (pos 90) empty_db

abbrev pub retry_db : memory.Db
retry_db = set_status memory task_a retry (pos 90) empty_db

abbrev pub finished_db : memory.Db
finished_db = set_status memory task_a success (pos 90) empty_db

unfoldable pub queued_db : memory.Db
unfolding memory empty_db
queued_db = memory.zadd global_queue (pos 100) "a" (memory.zadd global_queue (pos 900) "b" empty_db)

unfoldable pub fetched_db : memory.Db
unfolding memory empty_db
fetched_db = memory.zadd pending_queue (pos 20) "a" empty_db

unfoldable stored_db : memory.Db
unfolding memory
stored_db = memory.hset (HKey.task_detail "a") "data" (json task_a) pending_db

abbrev pub empty_p : P
empty_p = record { id = 0; local_queue = []; woken = false; stopped = false }

abbrev pub busy_p : P
busy_p = record { id = 1; local_queue = task_a ∷ task_b ∷ []; woken = false; stopped = false }

abbrev pub idle_busy : List P
idle_busy = empty_p ∷ busy_p ∷ []
