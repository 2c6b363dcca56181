-- ===== src/Fsm.antt =====
-- scheduler/internal/core/fsm.go: the state machine of a task, kept in Redis and changed by a
-- compare-and-set script.
pub mod Table
pub mod Fire
pub mod Race
pub mod Up
pub mod Legal
use Prim.Native.String.{String, []}
use go_flash_job.Base.{
  [], ℕ, Bool, ◌&&◌, Option, none, some, List, ◌∷◌, ◌++◌, ◌==◌, if◌then◌else◌, ℤ,
}
use go_flash_job.Model.{
  TaskStatus, pending, ready, dispatched, running, success, retry, dead, Task, Event, trigger,
  dispatch, start, succeed, fail, retry_event, illegal_transition, cas_failed,
}
use go_flash_job.Redis.{ZKey, HKey, Value, plain, int, Redis}
use go_flash_job.Redis.World.{
  ◌>>=◌, M, ret, fail_with, ◌>>◌, ignore_error, call, write, read, current_time,
}
use go_flash_job.Status.{status_eq, as_status, hset_all, set_status, status_field}

abbrev pub event_number : Event → ℕ
event_number trigger = 0
event_number dispatch = 1
event_number start = 2
event_number succeed = 3
event_number fail = 4
event_number retry_event = 5

abbrev pub event_eq : Event → Event → Bool
event_eq a b = event_number a == event_number b

pub record Transition : Type 0 where
  pub source : TaskStatus
  pub event : Event
  pub target : TaskStatus

abbrev transition : TaskStatus → Event → TaskStatus → Transition
transition s e t = record { source = s; event = e; target = t }

-- The legal transitions that NewFSM registers.
unfoldable pub legal_transitions : List Transition
legal_transitions =
    transition pending trigger ready
    ∷ transition ready dispatch dispatched
    ∷ transition dispatched start running
    ∷ transition running succeed success
    ∷ transition running fail retry
    ∷ transition retry retry_event ready
    ∷ transition retry fail dead
    ∷ []

-- findTransition, over the keys of the map in the order in which the loop meets them.
unfoldable pub find_transition : List Transition → TaskStatus → Event → Option TaskStatus
find_transition [] s e = none
find_transition (t ∷ r) s e =
    if status_eq t.source s && event_eq t.event e then some t.target else find_transition r s e

module _ (R : Redis) where
  abbrev pub Hook : Type 0
  Hook = Task → M R (Unit {0})

  pub record Fsm : Type 0 where
    pub transitions : List Transition
    pub hooks : TaskStatus → List Hook

  unfoldable pub new_fsm : Fsm
  unfolding legal_transitions
  new_fsm = record { transitions = legal_transitions; hooks = λ s. [] }

  unfoldable pub register_hook : TaskStatus → Hook → Fsm → Fsm
  register_hook s hook f = record f {
    hooks = λ t. if status_eq s t then f.hooks t ++ hook ∷ [] else f.hooks t;
  }

  -- casScript: HGET gives false for an absent field, which is no status.
  unfoldable pub cas_script : TaskStatus → TaskStatus → Task → ℤ → R.Db → ℕ × R.Db
  cas_script expected new t now d = elim (status_field R d t.id) [
    | none ↦ (0, d)
    | some v ↦
        if status_eq (as_status (some v)) expected then (1, set_status R t new now d) else (0, d)
  ]

  -- GetState: a task with no status is pending.
  abbrev pub state_or_pending : Option Value → TaskStatus
  state_or_pending none = pending
  state_or_pending (some v) = as_status (some v)

  unfoldable pub get_state : String → M R TaskStatus
  get_state id = do v ← read (λ d. status_field R d id); ret (state_or_pending v)

  unfoldable pub run_hooks : List Hook → Task → M R (Unit {0})
  run_hooks [] t = ret tt
  run_hooks (hook ∷ r) t = ignore_error (hook t) >> run_hooks r t

  -- Fire, once the target is known.
  unfoldable pub fire_to : Fsm → Task → TaskStatus → TaskStatus → M R (Unit {0})
  fire_to f t current target = do
    now ← current_time
    result ← call (cas_script current target t now)
    if result == 0 then fail_with (cas_failed t.id) else run_hooks (f.hooks target) t

  unfoldable pub fire_from : Fsm → Event → Task → TaskStatus → M R (Unit {0})
  fire_from f e t current = elim (find_transition f.transitions current e) [
    | none ↦ fail_with (illegal_transition current e)
    | some target ↦ fire_to f t current target
  ]

  -- Fire
  unfoldable pub fire : Fsm → Event → Task → M R (Unit {0})
  fire f e t = do current ← get_state t.id; fire_from f e t current

  -- saveState
  unfoldable pub save_state : Task → TaskStatus → M R (Unit {0})
  save_state t s = do now ← current_time; write (set_status R t s now)

  -- SaveDeadTask; the executor has a copy of its own, saveDeadTask.
  unfoldable pub save_dead_task : Task → String → M R (Unit {0})
  save_dead_task t msg = do
    now ← current_time
    write (
        hset_all R (HKey.dead_detail t.id) (
          ("id", plain t.id)
          ∷ ("name", plain t.name)
          ∷ ("callback_url", plain t.callback_url)
          ∷ ("retry_count", int t.retry_count)
          ∷ ("error", plain msg)
          ∷ ("dead_at", int now)
          ∷ []))
    write (R.zadd ZKey.dead_queue now t.id)
