-- ===== src/Journey/Submitted.antt =====
-- What SubmitJob has stored, and the reply of the fetch when no other job is due.
use Prim.Native.String.{String}
use text.Mathlib.Text.{◌==◌ as str_eq}
use text.Mathlib.TextPositions.{eq_refl}
use go_flash_job.Base.{
  ◌≡◌, refl, ap, ◌∙◌, inl, inr, true, false, Option, none, some, List, [], ◌∷◌, map, arith,
  Bool-cases, ℤ, ◌+ℤ◌, ◌-ℤ◌, pos, ltb_ℤ, leb_ℤ, ◌==ℤ◌, ◌&&◌, if◌then◌else◌,
}
use go_flash_job.Model.{Task, TaskCommand}
use go_flash_job.Redis.{global_queue, SKey, Value, json, in_range, keep_in_range, Redis}
use go_flash_job.Redis.World.{Link, up, ok, World}
use go_flash_job.Redis.Laws.{reads_at}
use go_flash_job.Detail.{detail_field, as_task, reread}
use go_flash_job.Service.{trigger_at, refused, with_defaults, store_task, submit_job}
use go_flash_job.Service.Submit.{store_task-Stored}
use go_flash_job.Scheduler.{preload_window, age, command_of, load_tasks}
use go_flash_job.Scheduler.Dealt.{age_priority}
use go_flash_job.Scheduler.Placed.{due_tasks}
use go_flash_job.Journey.Steps.{one_found}

pub named_of :
    (t : Task) → refused t ≡ none → (str_eq t.id "" ≡ false) × (str_eq t.callback_url "" ≡ false)
unfolding refused
named_of t h = elim (Bool-cases (str_eq t.id "")) [
  | inl e ↦ absurd (ground (arith, h))
  | inr e ↦ elim (Bool-cases (str_eq t.callback_url "")) [
    | inl q ↦ absurd (ground (arith, h))
    | inr q ↦ (e, q)
  ]
]

module _ (R : Redis) (t : Task) (w : World R) (fetched : ℤ) where
  -- The job with its defaults, when it is stored, and as it is taken from the queue.
  abbrev pub stored_task : Task
  stored_task = with_defaults w.now t

  abbrev pub fetched_task : Task
  fetched_task = age fetched (reread stored_task)

  -- The priority after the defaults.
  abbrev own_priority : String
  own_priority = if str_eq t.priority "" then "Low" else t.priority

  -- The message of the job: its data, with the defaults of SubmitJob.
  abbrev pub sent_command : TaskCommand
  sent_command = record {
    id = t.id;
    name = t.name;
    callback_url = t.callback_url;
    trigger_time =
        if leb_ℤ t.trigger_time (pos 0)
        then w.now +ℤ pos 5
        else if ltb_ℤ t.trigger_time (pos 1000000000)
        then w.now +ℤ t.trigger_time
        else t.trigger_time;
    priority =
        if str_eq own_priority "Low" && ltb_ℤ (pos 0) w.now && ltb_ℤ (pos 300) (fetched -ℤ w.now)
        then "High"
        else own_priority;
    retry_count = t.retry_count;
    max_retry = if t.max_retry ==ℤ pos 0 then pos 3 else t.max_retry;
    timeout = if t.timeout ==ℤ pos 0 then pos 30 else t.timeout;
    payload = if str_eq t.payload "" then "null" else t.payload;
  }

  pub command_of-fetched : command_of fetched_task ≡ sent_command
  unfolding command_of with_defaults trigger_at
  command_of-fetched = ap command_of (age_priority fetched (reread stored_task))

  abbrev pub stored_db : R.Db
  stored_db = store_task R w.now stored_task w.db

  abbrev pub latest : Option ℤ
  latest = some (fetched +ℤ preload_window)

  -- No other job is due in the round.
  abbrev pub IsAlone : Type 0
  IsAlone =
      (m : String)
      → str_eq t.id m ≡ false
      → keep_in_range latest (R.zscore w.db global_queue m) ≡ none

  pub submits :
      (l : List Link)
      → w.links ≡ up ∷ l
      → refused t ≡ none
      → submit_job R t w ≡ (ok tt, record w { db = stored_db; links = l })
  unfolding submit_job
  submits l on fine = ground arith

  pub store_task-sget : (k : SKey) → R.sget stored_db k ≡ R.sget w.db k
  unfolding store_task
  store_task-sget k = simp reads_at

  load_one :
      (g : String → Option Value) (id : String) (s : ℤ) (u : Task)
      → as_task (g id) ≡ some u
      → load_tasks R g ((id, s) ∷ []) ≡ record u { trigger_time = s } ∷ []
  unfolding load_tasks
  load_one g id s u e = rw (e, load_tasks) refl

  module _ (due_then : in_range latest stored_task.trigger_time ≡ true) (alone : IsAlone) where
    only_job :
        R.zrange stored_db global_queue latest ≡ (stored_task.id, stored_task.trigger_time) ∷ []
    unfolding with_defaults
    only_job =
        let s = store_task-Stored R w.now stored_task w.db in
        let found = R.find-zrange stored_db global_queue latest in
        one_found (R.zrange stored_db global_queue latest) stored_task.id stored_task.trigger_time
          (R.zrange-Distinct stored_db global_queue latest)
          (found stored_task.id ∙ rw (s.queued stored_task.id, eq_refl, due_then) refl)
          (λ m other. found m ∙ rw (s.queued m, other) (alone m other))

    pub only_task :
        map (age fetched) (due_tasks R stored_db (R.zrange stored_db global_queue latest))
        ≡ fetched_task ∷ []
    only_task =
        let s = store_task-Stored R w.now stored_task w.db in
        let stored : detail_field R stored_db stored_task.id ≡ some (json stored_task) =
          s.detail stored_task.id ∙ rw eq_refl refl in
        rw only_job (
          ap (map (age fetched)) (
            load_one (λ m. detail_field R stored_db m) stored_task.id stored_task.trigger_time
              (reread stored_task) (ap as_task stored)))
