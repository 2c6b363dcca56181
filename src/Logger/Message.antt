-- ===== src/Logger/Message.antt =====
-- logger/cmd/main.go: from a Kafka message to the buffer. The syntax of JSON is a parameter: what
-- stands here is an object as its list of members, with the field tags of the source.
use Prim.Native.String.{String}
use text.Mathlib.Text.{◌==◌ as str_eq}
use go_flash_job.Base.{Option, none, some, List, [], ◌∷◌, if◌then◌else◌, ℤ, pos}
use go_flash_job.Model.{JobLog, ExecutionLog}
use go_flash_job.Logger.{LogBuffer, add_log}

pub data Json : Type 0 where
  quoted : String → Json
  number : ℤ → Json
  null : Json
  -- A Boolean, an array or an object.
  composite : Json

abbrev pub Object : Type 0
Object = List (String × Json)

-- json.Marshal of an ExecutionLog (executor/internal/client/consumer.go).
unfoldable pub marshal_log : ExecutionLog → Object
marshal_log l =
    ("job_id", quoted l.job_id)
    ∷ ("name", quoted l.name)
    ∷ ("callback_url", quoted l.callback_url)
    ∷ ("status", number l.status)
    ∷ ("cost_ms", number l.cost_ms)
    ∷ ("retry", number l.retry)
    ∷ ("timestamp", number l.timestamp)
    ∷ ("error_msg", quoted l.error_msg)
    ∷ []

-- json.Unmarshal into one field that has the zero value `v`: the last member of that name counts,
-- `null` leaves the field, and a value of another type is an error.
unfoldable pub text_field : String → String → Object → Option String
text_field name v [] = some v
text_field name v ((key, json) ∷ r) =
    if str_eq key name
    then elim json [ quoted s ↦ text_field name s r | null ↦ text_field name v r | _ ↦ none ]
    else text_field name v r

unfoldable pub number_field : String → ℤ → Object → Option ℤ
number_field name v [] = some v
number_field name v ((key, json) ∷ r) =
    if str_eq key name
    then elim json [ number n ↦ number_field name n r | null ↦ number_field name v r | _ ↦ none ]
    else number_field name v r

-- KafkaLogMsg
pub record KafkaLogMsg : Type 0 where
  pub job_id : String
  pub name : String
  pub callback_url : String
  pub status : ℤ
  pub cost_ms : ℤ
  pub retry : ℤ
  pub timestamp : ℤ
  pub error_msg : String

infixl 5 ◌>>=◌
abbrev ◌>>=◌ : {A B : Type 0} → Option A → (A → Option B) → Option B
none >>= f = none
some a >>= f = f a

unfoldable pub unmarshal_msg : Object → Option KafkaLogMsg
unfolding text_field number_field
unmarshal_msg o = do
  job_id ← text_field "job_id" "" o
  name ← text_field "name" "" o
  callback_url ← text_field "callback_url" "" o
  status ← number_field "status" (pos 0) o
  cost_ms ← number_field "cost_ms" (pos 0) o
  retry ← number_field "retry" (pos 0) o
  timestamp ← number_field "timestamp" (pos 0) o
  error_msg ← text_field "error_msg" "" o
  some (record {
    job_id = job_id;
    name = name;
    callback_url = callback_url;
    status = status;
    cost_ms = cost_ms;
    retry = retry;
    timestamp = timestamp;
    error_msg = error_msg;
  })

-- The entry that main makes of a message.
unfoldable pub log_entry : KafkaLogMsg → JobLog
log_entry m = record {
  id = pos 0;
  job_id = m.job_id;
  name = m.name;
  callback_url = m.callback_url;
  status = m.status;
  cost_ms = m.cost_ms;
  retry = m.retry;
  error_msg = m.error_msg;
  created_at = m.timestamp;
}

-- One message of the loop of main; a text that is no JSON of a log is skipped.
unfoldable pub receive : Option Object → LogBuffer → LogBuffer × List JobLog
unfolding unmarshal_msg log_entry
receive body b = elim (body >>= unmarshal_msg) [ none ↦ (b, []) | some m ↦ add_log (log_entry m) b ]
