-- ===== src/Status.antt =====
-- Comparing statuses and events, reading a stored field, and the per-task writes that
-- scheduler/internal/core/fsm.go, the executor and the job service have in common.
pub mod Writes
use Prim.Native.String.{String, []}
use text.Mathlib.Text.{◌==◌ as str_eq}
use text.Mathlib.TextEquality.{eq_iff}
use text.Mathlib.TextPositions.{eq_refl}
use go_flash_job.Base.{
  [], ◌≡◌, refl, ap, Bool, true, false, ◌||◌, Option, some, List, ◌∷◌, arith, if◌then◌else◌, ℤ, pos,
}
use go_flash_job.Model.{
  TaskStatus, pending, ready, dispatched, running, success, retry, dead, unknown, Task,
}
use go_flash_job.Redis.{active_tasks, terminal_tasks, HKey, Value, plain, int, status, Redis}

abbrev pub status_eq : TaskStatus → TaskStatus → Bool
status_eq pending pending = true
status_eq ready ready = true
status_eq dispatched dispatched = true
status_eq running running = true
status_eq success success = true
status_eq retry retry = true
status_eq dead dead = true
status_eq (unknown s) (unknown t) = str_eq s t
status_eq _ _ = false

abbrev pub is_terminal : TaskStatus → Bool
is_terminal s = status_eq s success || status_eq s dead

pub status_eq_refl : (s : TaskStatus) → status_eq s s ≡ true
status_eq_refl pending = refl
status_eq_refl ready = refl
status_eq_refl dispatched = refl
status_eq_refl running = refl
status_eq_refl success = refl
status_eq_refl retry = refl
status_eq_refl dead = refl
status_eq_refl (unknown t) = eq_refl t

pub status_eq→≡ : (s t : TaskStatus) → status_eq s t ≡ true → s ≡ t
status_eq→≡ (unknown s) (unknown t) h = ap unknown ((eq_iff s t).0 h)
status_eq→≡ pending t h = ground arith
status_eq→≡ ready t h = ground arith
status_eq→≡ dispatched t h = ground arith
status_eq→≡ running t h = ground arith
status_eq→≡ success t h = ground arith
status_eq→≡ retry t h = ground arith
status_eq→≡ dead t h = ground arith
status_eq→≡ (unknown s) t h = ground arith

-- A field as a status, as a number (ParseInt, with the error ignored) and as a text; an absent
-- field of a map reads as the empty text.
abbrev pub as_status : Option Value → TaskStatus
as_status (some (status s)) = s
as_status (some (plain t)) = unknown t
as_status _ = unknown ""

abbrev pub as_int : Option Value → ℤ
as_int (some (int n)) = n
as_int _ = pos 0

abbrev pub as_plain : Option Value → String
as_plain (some (plain t)) = t
as_plain _ = ""

module _ (R : Redis) where
  -- HSET with several fields.
  abbrev pub hset_all : HKey → List (String × Value) → R.Db → R.Db
  hset_all k [] d = d
  hset_all k ((f, v) ∷ r) d = hset_all k r (R.hset k f v d)

  -- The fields of a task's state hash.
  abbrev pub state_fields : Task → TaskStatus → ℤ → List (String × Value)
  state_fields t s now =
      ("id", plain t.id)
      ∷ ("name", plain t.name)
      ∷ ("callback_url", plain t.callback_url)
      ∷ ("status", status s)
      ∷ ("retry_count", int t.retry_count)
      ∷ ("max_retry", int t.max_retry)
      ∷ ("trigger_time", int t.trigger_time)
      ∷ ("updated_at", int now)
      ∷ []

  -- A terminal status moves the task from the active to the terminal index; any other sets its
  -- time in the active index.
  abbrev pub index_task : String → TaskStatus → ℤ → R.Db → R.Db
  index_task id s now d =
      if is_terminal s
      then R.zadd terminal_tasks now id (R.zrem active_tasks id d)
      else R.zadd active_tasks now id d

  abbrev pub status_field : R.Db → String → Option Value
  status_field d id = R.hget d (HKey.task_state id) "status"

  -- The status of a task, written with its index entry.
  unfoldable pub set_status : Task → TaskStatus → ℤ → R.Db → R.Db
  set_status t s now d =
      index_task t.id s now (hset_all (HKey.task_state t.id) (state_fields t s now) d)
