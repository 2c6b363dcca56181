-- ===== src/Service/Submit.antt =====
-- What SubmitJob stores, and what the scheduler then does with it.
use Prim.Native.String.{String}
use text.Mathlib.Text.{◌==◌ as str_eq}
use go_flash_job.Base.{
  ◌≡◌, refl, ap, ◌∙◌, inl, inr, none, some, List, [], ◌∷◌, arith, if◌then◌else◌, Bool-cases, ℤ,
}
use go_flash_job.Model.{pending, ready, Task, trigger}
use go_flash_job.Redis.{global_queue, active_tasks, terminal_tasks, status, json, Redis}
use go_flash_job.Redis.World.{Link, up, ok, World}
use go_flash_job.Status.{status_field, set_status}
use go_flash_job.Detail.{detail_field}
use text.Mathlib.TextPositions.{eq_refl}
use go_flash_job.Redis.Laws.{reads_at}
use go_flash_job.Status.Writes.{status-state_fields, detail-state_fields, zscore-state_fields}
use go_flash_job.Fsm.{legal_transitions, find_transition, Fsm, fire}
use go_flash_job.Fsm.Up.{fire_up}
use go_flash_job.Service.{refused, with_defaults, store_task, submit_job}

-- What a stored task changes of the database: `d'` is the database after it.
pub record Stored (R : Redis) (now : ℤ) (t : Task) (d d' : R.Db) : Type 0 where
  pub state :
      (id : String)
      → status_field R d' id
        ≡ (if str_eq t.id id then some (status pending) else status_field R d id)
  pub detail :
      (id : String)
      → detail_field R d' id ≡ (if str_eq t.id id then some (json t) else detail_field R d id)
  pub queued :
      (id : String)
      → R.zscore d' global_queue id
        ≡ (if str_eq t.id id then some t.trigger_time else R.zscore d global_queue id)
  pub active :
      (id : String)
      → R.zscore d' active_tasks id
        ≡ (if str_eq t.id id then some now else R.zscore d active_tasks id)
  pub terminal : (id : String) → R.zscore d' terminal_tasks id ≡ R.zscore d terminal_tasks id

module _ (R : Redis) where
  pub store_task-Stored : (now : ℤ) (t : Task) (d : R.Db) → Stored R now t d (store_task R now t d)
  unfolding store_task
  store_task-Stored now t d = record {
    state = λ id. status-state_fields R _ t pending now id ∙ simp reads_at;
    detail = λ id.
        detail-state_fields R _ t pending now id "data"
        ∙ simp reads_at (elim (Bool-cases (str_eq t.id id)) [ inl e ↦ rw e | inr e ↦ rw e ]);
    queued =
        λ id. ap (λ z. z global_queue id) (zscore-state_fields R _ t pending now) ∙ simp reads_at;
    active =
        λ id. ap (λ z. z active_tasks id) (zscore-state_fields R _ t pending now) ∙ simp reads_at;
    terminal =
        λ id. ap (λ z. z terminal_tasks id) (zscore-state_fields R _ t pending now) ∙ simp reads_at;
  }

  -- A job with an id and a callback, submitted over a call that gets through, is stored with its
  -- defaults: PENDING, with its detail, due at its trigger time and active now.
  pub submit_job-Stored :
      (t : Task) (w : World R) (l : List Link)
      → w.links ≡ up ∷ l
      → refused t ≡ none
      → (d' : R.Db) × (submit_job R t w ≡ (ok tt, record w { db = d'; links = l }))
        × Stored R w.now (with_defaults w.now t) w.db d'
  unfolding submit_job
  submit_job-Stored t w l on fine = (
    store_task R w.now (with_defaults w.now t) w.db,
    ground arith,
    store_task-Stored w.now (with_defaults w.now t) w.db,
  )

  -- A job that SubmitJob has accepted can be triggered: with the legal table, no hook on READY
  -- and every call answered, Fire makes it READY.
  pub submit_job-fire :
      (f : Fsm R) (t : Task) (w : World R) (l : List Link)
      → w.links ≡ up ∷ up ∷ up ∷ l
      → refused t ≡ none
      → f.transitions ≡ legal_transitions
      → f.hooks ready ≡ []
      → let w₁ = (submit_job R t w).1 in
        fire R f trigger (with_defaults w.now t) w₁ ≡ (
          ok tt,
          record w₁ { db = set_status R (with_defaults w.now t) ready w.now w₁.db; links = l },
        )
  unfolding find_transition legal_transitions
  submit_job-fire f t w l on fine legal quiet =
      let (d', run, stored) = submit_job-Stored t w (up ∷ up ∷ l) on fine in
      rw run (
        fire_up R f trigger (with_defaults w.now t) pending ready
          (record w { db = d'; links = up ∷ up ∷ l }) l refl
          (stored.state (with_defaults w.now t).id ∙ rw eq_refl) (rw legal) quiet)
