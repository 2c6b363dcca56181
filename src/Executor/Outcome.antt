-- ===== src/Executor/Outcome.antt =====
-- What handleTask leaves behind, by the callback's result.
use Prim.Native.String.{String}
use text.Mathlib.Text.{◌==◌ as str_eq}
use go_flash_job.Base.{
  ℕ, suc, ◌≡◌, refl, ap, ◌∙◌, inl, inr, false, none, some, List, [], ◌∷◌, if◌then◌else◌, Bool-cases,
  length, ℤ, ◌+ℤ◌,
}
use go_flash_job.Model.{TaskStatus, running, success, TaskCommand}
use go_flash_job.Redis.{
  ZKey, global_queue, dead_queue, active_tasks, terminal_tasks, HKey, Value, int, status, Redis,
  zkey_eq,
}
use go_flash_job.Redis.World.{Link, up, ok, World, ret, ◌>>=◌, call_keeps}
use go_flash_job.Status.{is_terminal, hset_all, index_task, status_field}
use go_flash_job.Detail.{detail_field}
use text.Mathlib.TextPositions.{eq_refl}
use go_flash_job.Redis.Laws.{reads_at}
use go_flash_job.Status.Writes.{
  IndexedAs-eq, status-index_task, IsIndexed, active-index_task, terminal-index_task,
  index_task-IsIndexed,
}
use go_flash_job.Executor.{
  acked, Response, execute_http_callback, dedupe_key, set_if_absent, dedupe_ttl,
  check_and_mark_idempotency, update_task_state, send_log_to_kafka, finish_task, handle_checked,
  handle_task,
}

module _ (R : Redis) where
  abbrev with_status : String → TaskStatus → ℤ → R.Db → R.Db
  with_status i s now d =
      hset_all R (HKey.task_state i) (("status", Value.status s) ∷ ("updated_at", int now) ∷ []) d

  -- The database that updateTaskState writes.
  abbrev state_db : String → TaskStatus → ℤ → R.Db → R.Db
  state_db i s now d = index_task R i s now (with_status i s now d)

  status-with_status :
      (i : String) (s : TaskStatus) (now : ℤ) (d : R.Db) (id : String)
      → status_field R (with_status i s now d) id
        ≡ (if str_eq i id then some (status s) else status_field R d id)
  status-with_status i s now d id =
      simp reads_at (elim (Bool-cases (str_eq i id)) [ inl e ↦ rw e | inr e ↦ rw e ])

  zscore-with_status :
      (i : String) (s : TaskStatus) (now : ℤ) (d : R.Db) (z : ZKey) (id : String)
      → R.zscore (with_status i s now d) z id ≡ R.zscore d z id
  zscore-with_status i s now d z id = simp reads_at

  -- updateTaskState keeps every task in the index of its status, whatever the network does.
  pub update_task_state-IsIndexed :
      (i : String) (s : TaskStatus) (w : World R)
      → ((id : String) → IsIndexed R w.db id)
      → (id : String) → IsIndexed R (update_task_state R i s w).1.db id
  unfolding update_task_state
  update_task_state-IsIndexed i s w h id = elim (Bool-cases (str_eq i "")) [
    | inl e ↦ rw e (h id)
    | inr e ↦ rw e (
        call_keeps R (λ d. IsIndexed R d id)
          (λ d. (tt {0}, index_task R i s w.now (with_status i s w.now d))) w (h id)
          (index_task-IsIndexed R (with_status i s w.now w.db) i s w.now id
            (λ yes. status-with_status i s w.now w.db id ∙ rw yes)
            (λ other.
              IndexedAs-eq (status-with_status i s w.now w.db id ∙ rw other)
                (zscore-with_status i s w.now w.db active_tasks id)
                (zscore-with_status i s w.now w.db terminal_tasks id) (h id))))
  ]

  pub status-state_db :
      (i : String) (s : TaskStatus) (now : ℤ) (d : R.Db)
      → status_field R (state_db i s now d) i ≡ some (status s)
  status-state_db i s now d =
      ap (λ g. g (HKey.task_state i) "status") (status-index_task R (with_status i s now d) i s now)
      ∙ status-with_status i s now d i
      ∙ rw eq_refl

  -- Another sorted set is left alone.
  pub zscore-state_db :
      (i : String) (s : TaskStatus) (now : ℤ) (d : R.Db) (m : String)
      → (R.zscore (state_db i s now d) global_queue m ≡ R.zscore d global_queue m)
        × (R.zscore (state_db i s now d) dead_queue m ≡ R.zscore d dead_queue m)
  zscore-state_db i s now d m = elim (Bool-cases (is_terminal s)) [
    | inl e ↦ (rw e (simp reads_at), rw e (simp reads_at))
    | inr e ↦ (rw e (simp reads_at), rw e (simp reads_at))
  ]

  -- The queues are no indexes of statuses.
  abbrev pub IsQueue : ZKey → Type 0
  IsQueue k = (zkey_eq active_tasks k ≡ false) × (zkey_eq terminal_tasks k ≡ false)

  queue-state_db :
      (i : String) (s : TaskStatus) (now : ℤ) (d : R.Db) (k : ZKey) (m : String)
      → IsQueue k
      → R.zscore (state_db i s now d) k m ≡ R.zscore d k m
  queue-state_db i s now d k m (active, terminal) = elim (Bool-cases (is_terminal s)) [
    | inl e ↦ rw e (simp reads_at (rw (active, terminal)))
    | inr e ↦ rw e (simp reads_at (rw active))
  ]

  pub detail-state_db :
      (i : String) (s : TaskStatus) (now : ℤ) (d : R.Db) (id : String)
      → detail_field R (state_db i s now d) id ≡ detail_field R d id
  detail-state_db i s now d id = elim (Bool-cases (is_terminal s)) [
    | inl e ↦ rw e (simp reads_at)
    | inr e ↦ rw e (simp reads_at)
  ]

  pub update_up :
      (i : String) (s : TaskStatus) (w : World R) (l : List Link)
      → str_eq i "" ≡ false
      → w.links ≡ up ∷ l
      → update_task_state R i s w ≡ (ok tt, record w { db = state_db i s w.now w.db; links = l })
  unfolding update_task_state
  update_up i s w l e on = rw (e, on)

  check_up :
      (c : TaskCommand) (w : World R) (l : List Link)
      → R.sget w.db (dedupe_key R c) ≡ none
      → w.links ≡ up ∷ l
      → check_and_mark_idempotency R c w
        ≡ (ok false, record w { db = R.set (dedupe_key R c) (w.now +ℤ dedupe_ttl) w.db; links = l })
  unfolding check_and_mark_idempotency
  check_up c w l fresh on = rw (on, set_if_absent, fresh)

  module _ (http : TaskCommand → Response) (frac jitter : ℕ) (cost : ℤ) (c : TaskCommand)
      (w : World R) (fresh : R.sget w.db (dedupe_key R c) ≡ none) (named : str_eq c.id "" ≡ false)
      (addressed : str_eq c.callback_url "" ≡ false) where
    -- The database when the callback is called.
    abbrev pub marked_db : R.Db
    marked_db = state_db c.id running w.now (R.set (dedupe_key R c) (w.now +ℤ dedupe_ttl) w.db)

    pub handle_up :
        (l : List Link)
        → w.links ≡ up ∷ up ∷ l
        → handle_task R http frac jitter cost c w
          ≡ (finish_task R frac jitter cost c (execute_http_callback http c) >>= λ a.
                ret (record { answer = a; called = some c }))
              (record w { db = marked_db; links = l })
    unfolding handle_task handle_checked
    handle_up l on = rw (check_up c w (up ∷ l) fresh on) (
        rw (
          update_up c.id running
              (record w { db = R.set (dedupe_key R c) (w.now +ℤ dedupe_ttl) w.db; links = up ∷ l })
              l named refl,
          addressed,
        ))

    -- The callback of a fresh command with an id and a callback URL has succeeded and every call
    -- gets through: the message is acknowledged, the task is SUCCESS, in the terminal index and
    -- not in the active one, one log has been sent, and the queues are as before.
    pub handle_task-succeeds :
        (l : List Link)
        → w.links ≡ up ∷ up ∷ up ∷ up ∷ l
        → execute_http_callback http c ≡ none
        → let w' = (handle_task R http frac jitter cost c w).1 in
          ((handle_task R http frac jitter cost c w).0
            ≡ ok (record { answer = acked; called = some c }))
          × (status_field R w'.db c.id ≡ some (status success))
          × (R.zscore w'.db active_tasks c.id ≡ none)
          × (R.zscore w'.db terminal_tasks c.id ≡ some w.now)
          × (length w'.kafka ≡ suc (length w.kafka))
          × ((k : ZKey) (m : String) → IsQueue k → R.zscore w'.db k m ≡ R.zscore w.db k m)
    unfolding finish_task send_log_to_kafka
    handle_task-succeeds l on fine =
        let w₁ : World R = record w { db = marked_db; links = up ∷ up ∷ l } in
        rw (handle_up (up ∷ up ∷ l) on, fine, update_up c.id success w₁ (up ∷ l) named refl)
          (
            refl,
            status-state_db c.id success w.now marked_db,
            active-index_task R _ c.id success w.now c.id ∙ rw eq_refl,
            terminal-index_task R _ c.id success w.now c.id ∙ rw eq_refl,
            refl,
            λ k m q.
                queue-state_db c.id success w.now marked_db k m q
                ∙ queue-state_db c.id running w.now _ k m q
                ∙ simp reads_at,
          )
