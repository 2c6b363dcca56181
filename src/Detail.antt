-- ===== src/Detail.antt =====
-- pkg/model/detail.go: the details of a task, its JSON in a hash of its own. json.Marshal of a
-- task does not fail, and json.Unmarshal gives the task back, with `null` for a nil payload.
use Prim.Native.String.{String}
use text.Mathlib.Text.{◌==◌ as str_eq}
use go_flash_job.Base.{Option, none, some, if◌then◌else◌}
use go_flash_job.Model.{Task, message}
use go_flash_job.Redis.{active_tasks, HKey, Value, json, Redis}
use go_flash_job.Redis.World.{◌>>=◌, M, ret, fail_with, write, read, current_time}

-- A payload is the text of a json.RawMessage, the empty text for nil, which Marshal writes as `null`
-- and Unmarshal leaves at that.
abbrev pub reread_payload : String → String
reread_payload p = if str_eq p "" then "null" else p

-- What Unmarshal makes of the JSON of a task.
abbrev pub reread : Task → Task
reread t = record t { payload = reread_payload t.payload }

-- A value of the field `data` as a task; redis.Nil and an Unmarshal error are errors alike.
abbrev pub as_task : Option Value → Option Task
as_task (some (json t)) = some (reread t)
as_task _ = none

module _ (R : Redis) where
  abbrev pub detail_field : R.Db → String → Option Value
  detail_field d id = R.hget d (HKey.task_detail id) "data"

  -- SaveTaskDetail
  unfoldable pub save_task_detail : Task → M R (Unit {0})
  save_task_detail t = do
    now ← current_time
    write (λ d. R.zadd active_tasks now t.id (R.hset (HKey.task_detail t.id) "data" (json t) d))

  -- GetTaskDetail
  unfoldable pub detail_found : Option Task → M R Task
  detail_found none = fail_with (message "no task detail")
  detail_found (some t) = ret t

  unfoldable pub get_task_detail : String → M R Task
  unfolding detail_found
  get_task_detail id = do v ← read (λ d. detail_field d id); detail_found (as_task v)

  -- DelTaskDetail
  unfoldable pub del_task_detail : String → M R (Unit {0})
  del_task_detail id = write (λ d. R.zrem active_tasks id (R.del (HKey.task_detail id) d))

  -- TouchActiveTask
  unfoldable pub touch_active_task : String → M R (Unit {0})
  touch_active_task id = do now ← current_time; write (R.zadd active_tasks now id)
