-- ===== src/Journey/Success.antt =====
-- A job whose callback works is executed and ends in SUCCESS.
use text.Mathlib.Text.{◌==◌ as str_eq}
use text.Mathlib.TextPositions.{eq_refl}
use go_flash_job.Base.{
  suc, ◌≡◌, refl, sym, ap, ◌∙◌, true, false, none, some, List, [], ◌∷◌, map, length, ℤ, pos, ◌+ℤ◌,
  leb_ℤ, Bool-cases, inl, inr,
}
use go_flash_job.Model.{pending, ready, dispatched, success, Task, TaskCommand}
use go_flash_job.Redis.{
  global_queue, pending_queue, active_tasks, terminal_tasks, SKey, exec_dedupe, status, in_range,
  Redis,
}
use go_flash_job.Redis.World.{Link, up, ok, World}
use go_flash_job.Redis.Laws.{reads_at}
use go_flash_job.Status.{status_field, set_status}
use go_flash_job.Fsm.{Fsm, legal_transitions}
use go_flash_job.Fsm.Up.{online}
use go_flash_job.Service.{refused, with_defaults}
use go_flash_job.Service.Submit.{store_task-Stored}
use go_flash_job.Processor.{new_p, run_round, run_task}
use go_flash_job.Scheduler.{
  preload_window, new_ps, age, command_of, move_expired, fetch_round, execute_task,
}
use go_flash_job.Scheduler.Placed.{
  place_all, DistinctIds, aged_db, due_tasks, round_db, fetch_round-runs,
}
use go_flash_job.Scheduler.Queues.{fetch_expired-Fetched}
use go_flash_job.Scheduler.Left.{all_ready-AllHave, round_db-queue, round_db-sget}
use go_flash_job.Scheduler.Dispatch.{AllHave, execute_task-publishes}
use go_flash_job.Executor.{
  acked, Response, response_error, execute_http_callback, dedupe_key, handle_task,
}
use go_flash_job.Executor.Outcome.{handle_task-succeeds}
use go_flash_job.Detail.{reread}
use go_flash_job.Journey.{four_up, life, received}
use go_flash_job.Journey.Steps.{
  age-id, age-trigger_time, age-callback_url, one_placed, place_one, woken_p, run_one,
}
use go_flash_job.Journey.Submitted.{
  stored_task, fetched_task, stored_db, latest, sent_command, command_of-fetched, IsAlone, named_of,
  submits, store_task-sget, only_task,
}

first_has :
    (R : Redis) (d : R.Db) (ts : List Task) (a : Task)
    → ts ≡ a ∷ []
    → AllHave R ready d ts
    → status_field R d a.id ≡ some (status ready)
first_has R d ts a e h = (rw e at h).0

alone_have :
    (R : Redis) (d : R.Db) (ts : List Task) (a : Task)
    → ts ≡ a ∷ []
    → status_field R d a.id ≡ some (status pending)
    → AllHave R pending d ts × DistinctIds ts
alone_have R d ts a e h = rw e ((h, tt), (tt, tt))

module _ (R : Redis) (http : TaskCommand → Response) (f : Fsm R)
    (legal : f.transitions ≡ legal_transitions) (quiet : f.hooks ready ≡ [])
    (quiet_too : f.hooks dispatched ≡ []) (t : Task) (w : World R) (fetched run taken : ℤ)
    (due_then : in_range (latest R t w fetched) (stored_task R t w fetched).trigger_time ≡ true)
    (alone : IsAlone R t w fetched) where
  abbrev a : Task
  a = fetched_task R t w fetched

  abbrev command : TaskCommand
  command = command_of a

  abbrev fetched_db : R.Db
  fetched_db = round_db R fetched (stored_db R t w fetched)

  ids : a.id ≡ t.id
  unfolding with_defaults
  ids = age-id fetched (reread (stored_task R t w fetched))

  pending_first : status_field R (stored_db R t w fetched) a.id ≡ some (status pending)
  unfolding with_defaults
  pending_first =
      let s = store_task-Stored R w.now (stored_task R t w fetched) w.db in
      s.state a.id ∙ rw (ids, eq_refl) refl

  abbrev w₁ : World R
  w₁ = record w { db = stored_db R t w fetched; now = fetched }

  fetches :
      fetch_round R f new_ps (online w₁)
      ≡ (ok (one_placed a), online (record w₁ { db = fetched_db }))
  fetches =
      let only = only_task R t w fetched due_then alone in
      let (have, distinct) = alone_have R (stored_db R t w fetched) _ a only pending_first in
      fetch_round-runs R f legal quiet new_ps w₁ have distinct
      ∙ ap (λ ts. (ok (place_all 0 ts new_ps), online (record w₁ { db = fetched_db }))) only
      ∙ ap (λ ps. (ok ps, online (record w₁ { db = fetched_db }))) (place_one a)

  is_ready : status_field R fetched_db a.id ≡ some (status ready)
  is_ready =
      let d = stored_db R t w fetched in
      let ts = due_tasks R d (R.zrange d global_queue (latest R t w fetched)) in
      first_has R fetched_db (map (age fetched) ts) a (only_task R t w fetched due_then alone) (
        all_ready-AllHave R fetched (map (age fetched) ts) (
          aged_db R fetched ts (move_expired R (R.zrange d global_queue (latest R t w fetched)) d)))

  -- When the message is published.
  abbrev w₂ : World R
  w₂ = record w { db = fetched_db; now = run; links = four_up }

  abbrev sent_db : R.Db
  sent_db = R.zrem pending_queue a.id (set_status R a dispatched run fetched_db)

  executes :
      execute_task R f 0 0 woken_p a w₂
      ≡ (ok woken_p, record w₂ { db = sent_db; links = []; mq = command ∷ w.mq })
  executes = execute_task-publishes R f 0 0 woken_p a w₂ [] legal quiet_too is_ready refl

  -- When the executor gets it.
  abbrev w₃ : World R
  w₃ = record w { db = sent_db; now = taken; links = four_up }

  sent-sget : (k : SKey) → R.sget sent_db k ≡ R.sget w.db k
  unfolding set_status
  sent-sget k = simp reads_at (round_db-sget R fetched _ k ∙ store_task-sget R t w fetched k)

  module _ (due : leb_ℤ (stored_task R t w fetched).trigger_time run ≡ true)
      (fine : refused t ≡ none)
      (fresh : R.sget w.db (exec_dedupe t.id (stored_task R t w fetched).trigger_time) ≡ none)
      (works : response_error (http (sent_command R t w fetched)) ≡ none) where
    runs_it : run_round 0 run (one_placed a) ≡ (run_task a, woken_p ∷ new_p 1 ∷ [])
    runs_it = run_one run a (rw (age-trigger_time fetched (reread (stored_task R t w fetched))) due)

    is_named : str_eq command.id "" ≡ false
    unfolding command_of
    is_named = rw ids (named_of t fine).0

    is_addressed : str_eq command.callback_url "" ≡ false
    unfolding with_defaults command_of
    is_addressed =
        rw (age-callback_url fetched (reread (stored_task R t w fetched))) (named_of t fine).1

    keys : dedupe_key R command ≡ exec_dedupe t.id (stored_task R t w fetched).trigger_time
    unfolding command_of
    keys = rw (ids, age-trigger_time fetched (reread (stored_task R t w fetched))) refl

    is_fresh : R.sget sent_db (dedupe_key R command) ≡ none
    is_fresh = ap (R.sget sent_db) keys ∙ sent-sget _ ∙ fresh

    answers : execute_http_callback http command ≡ none
    unfolding execute_http_callback
    answers = rw (is_addressed, command_of-fetched R t w fetched) works

    reread_once : received command ≡ command
    reread_once =
        rw (command_of-fetched R t w fetched)
          (elim (Bool-cases (str_eq t.payload "")) [ inl e ↦ rw e refl | inr e ↦ rw (e, e) refl ])

    runs_through :
        (l : List Link)
        → w.links ≡ up ∷ l
        → life R http f t fetched run taken w ≡ handle_task R http 0 0 (pos 0) command w₃
    unfolding life
    runs_through l on =
        rw (submits R t w fetched l on fine, fetches, runs_it, executes)
          (ap (λ c. handle_task R http 0 0 (pos 0) c w₃) reread_once)

    command_id : command.id ≡ t.id
    unfolding command_of
    command_id = ids

    -- The queues when the executor gets the message.
    sent_global : R.zscore sent_db global_queue t.id ≡ none
    unfolding set_status with_defaults
    sent_global =
        let d = stored_db R t w fetched in
        let s = store_task-Stored R w.now (stored_task R t w fetched) w.db in
        let queued : R.zscore d global_queue t.id ≡ some (stored_task R t w fetched).trigger_time =
          s.queued t.id ∙ rw (eq_refl t.id) refl in
        simp reads_at (
          round_db-queue R fetched d global_queue t.id refl
          ∙ (fetch_expired-Fetched R (fetched +ℤ preload_window) d).global t.id
          ∙ rw (queued, due_then) refl)

    sent_pending : R.zscore sent_db pending_queue t.id ≡ none
    unfolding set_status
    sent_pending = simp reads_at (rw (ids, eq_refl t.id) refl)

    -- A job with an id and a callback is submitted, and no other job is due in the round of the
    -- fetcher in which it is; the table is the legal one, without hooks on READY and DISPATCHED,
    -- the job has not run at its time before, and every call gets through. When its time has come,
    -- its callback is called once with the job's data, the
    -- defaults of SubmitJob filled in, `null` for an absent payload and the priority High after more
    -- than 300 seconds of waiting with Low; and if it succeeds the message is
    -- acknowledged, the job is SUCCESS, in the terminal index and no longer in the active one nor in
    -- a queue, and one more log has been sent.
    pub life-succeeds :
        (l : List Link)
        → w.links ≡ up ∷ l
        → let r = life R http f t fetched run taken w in
          (r.0 ≡ ok (record { answer = acked; called = some (sent_command R t w fetched) }))
          × (status_field R r.1.db t.id ≡ some (status success))
          × (R.zscore r.1.db active_tasks t.id ≡ none)
          × (R.zscore r.1.db terminal_tasks t.id ≡ some taken)
          × (R.zscore r.1.db global_queue t.id ≡ none)
          × (R.zscore r.1.db pending_queue t.id ≡ none)
          × (length r.1.kafka ≡ suc (length w.kafka))
    life-succeeds l on =
        let (handled, state, active, terminal, logged, queues) =
          handle_task-succeeds R http 0 0 (pos 0) command w₃ is_fresh is_named is_addressed [] refl
            answers in
        let out = (handle_task R http 0 0 (pos 0) command w₃).1.db in
        rw (runs_through l on) (
          handled
              ∙ ap (λ c. ok (record { answer = acked; called = some c }))
                  (command_of-fetched R t w fetched),
          ap (λ i. status_field R out i) (sym command_id) ∙ state,
          ap (λ i. R.zscore out active_tasks i) (sym command_id) ∙ active,
          ap (λ i. R.zscore out terminal_tasks i) (sym command_id) ∙ terminal,
          queues global_queue t.id (refl, refl) ∙ sent_global,
          queues pending_queue t.id (refl, refl) ∙ sent_pending,
          logged,
        )
