-- ===== src/Api.antt =====
-- scheduler/internal/api/job_handler.go: what each handler answers. The binding of the body by the
-- web framework is a parameter: its value, or the text of its error.
pub mod Submit
pub mod Dead
pub mod Limiter
pub mod Status
use Prim.Native.String.{String}
use text.Mathlib.Text.{◌==◌ as str_eq, starts_with}
use go_flash_job.Base.{
  ℕ, zero, suc, ◌+◌, ◌-◌, ◌*◌, ◌/◌, ◌%◌, ◌^◌, ◌≤◌, ◌<◌, ◌≡◌, refl, sym, ap, ◌∙◌, ◌≢◌, ◌↔◌, ◌⊎◌, inl,
  inr, Bool, true, false, not, ◌&&◌, ◌||◌, Option, none, some, List, [], ◌∷◌, ◌++◌, map, Mem, Perm,
  arith, ltb, leb, ◌==◌, if◌then◌else◌, Bool-cases, Option-cases, length, get_or, set, take,
  length-append, length-set, length-perm, ℤ, pos, negsuc, pos_part, neg_part, ◌+ℤ◌, ◌-ℤ◌, ◌≤ℤ◌,
  ltb_ℤ, leb_ℤ, ◌==ℤ◌, +ℤ_parts, eq_of_parts, count, count-append, count-length, count-le,
  count-perm, one_if, ltb→lt, lt→ltb, leb→le, ==_iff,
}
use go_flash_job.Model.{Task, Error}
use go_flash_job.Redis.{Redis}
use go_flash_job.Redis.World.{
  Link, up, down, lost, Res, ok, err, head_link, tail_links, World, M, ret, fail_with,
  continue_with, ◌>>=◌, ◌>>◌, caught, attempt, ignore_error, call_on, call, write, read,
  current_time, send_mq_on, send_mq, send_kafka_on, send_kafka, call_keeps, bind_keeps,
  send_kafka-db,
}
use go_flash_job.Service.{with_defaults, submit_job, batch_submit_jobs}

pub data Bound (A : Type 0) : Type 0 where
  malformed : String → Bound A
  bound : A → Bound A

-- The status code with the body. `error_at` has the index of the task.
pub data Reply : Type 0 where
  bad_request : String → Reply
  bad_request_at : String → ℕ → Reply
  internal_error : Error → Reply
  submitted : Task → Reply
  submitted_all : ℕ → Reply

abbrev pub is_http : String → Bool
is_http url = starts_with url "http://" || starts_with url "https://"

-- The checks of HandleSubmit.
unfoldable pub submit_error : Task → Option String
submit_error t =
    if str_eq t.id ""
    then some "id is required"
    else if str_eq t.callback_url ""
    then some "callback_url is required"
    else if not (is_http t.callback_url)
    then some "callback_url must start with http:// or https://"
    else none

-- The checks of HandleBatchSubmit on one task.
unfoldable pub task_error : Task → Option String
task_error t =
    if str_eq t.id "" || str_eq t.callback_url ""
    then some "task id and callback_url are required"
    else if not (is_http t.callback_url)
    then some "callback_url must start with http:// or https://"
    else none

-- The loop of HandleBatchSubmit: the first task that is refused, with its index.
unfoldable pub first_error : ℕ → List Task → Option (String × ℕ)
unfolding task_error
first_error i [] = none
first_error i (t ∷ r) = elim (task_error t) [ some e ↦ some (e, i) | none ↦ first_error (suc i) r ]

abbrev pub max_batch : ℕ
max_batch = 10000

module _ (R : Redis) where
  -- SubmitJob fills the defaults into the task that the answer shows.
  abbrev pub submit_answer : Task → Res (Unit {0}) → Reply
  submit_answer t (ok u) = submitted t
  submit_answer t (err e) = internal_error e

  abbrev pub batch_answer : Res ℕ → Reply
  batch_answer (ok n) = submitted_all n
  batch_answer (err e) = internal_error e

  -- HandleSubmit
  unfoldable pub handle_submit : Bound Task → M R Reply
  unfolding submit_error submit_job
  handle_submit (malformed e) = ret (bad_request e)
  handle_submit (bound t) = elim (submit_error t) [
    | some e ↦ ret (bad_request e)
    | none ↦ do
      now ← current_time
      r ← attempt (submit_job R t)
      ret (submit_answer (with_defaults now t) r)
  ]

  -- HandleBatchSubmit
  unfoldable pub handle_batch_submit : Bound (List Task) → M R Reply
  unfolding first_error batch_submit_jobs
  handle_batch_submit (malformed e) = ret (bad_request e)
  handle_batch_submit (bound ts) =
      if length ts == 0
      then ret (bad_request "tasks is empty")
      else if ltb max_batch (length ts)
      then ret (bad_request "at most 10000 tasks at a time")
      else elim (first_error 0 ts) [
        | some (e, i) ↦ ret (bad_request_at e i)
        | none ↦ do r ← attempt (batch_submit_jobs R ts); ret (batch_answer r)
      ]
