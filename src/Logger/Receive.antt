-- ===== src/Logger/Receive.antt =====
-- A log of an executor as the logger receives it.
use go_flash_job.Base.{◌≡◌, refl, some, pos}
use go_flash_job.Model.{ExecutionLog}
use go_flash_job.Logger.{LogBuffer, add_log}
use go_flash_job.Logger.Message.{
  marshal_log, text_field, number_field, unmarshal_msg, log_entry, receive,
}

-- The message that an executor sends for a log is read back field by field: the logger adds an
-- entry with the executor's values under the same names, the time under `created_at`, and no id.
pub receive-marshal_log :
    (l : ExecutionLog) (b : LogBuffer)
    → receive (some (marshal_log l)) b
      ≡ add_log
          (record {
            id = pos 0;
            job_id = l.job_id;
            name = l.name;
            callback_url = l.callback_url;
            status = l.status;
            cost_ms = l.cost_ms;
            retry = l.retry;
            error_msg = l.error_msg;
            created_at = l.timestamp;
          })
          b
unfolding receive marshal_log unmarshal_msg text_field number_field log_entry
receive-marshal_log l b = refl
