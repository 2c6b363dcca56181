-- ===== src/Executor/Marks.antt =====
-- The writes of handleTask leave a dedupe key set for as long as it is.
use Prim.Native.String.{String}
use text.Mathlib.Text.{◌==◌ as str_eq}
use go_flash_job.Base.{
  ℕ, ◌≡◌, ◌∙◌, inl, inr, Bool, true, false, Option, none, some, List, [], ◌∷◌, Bool-cases, ℤ, pos,
  ltb_ℤ, ◌≤ℤ◌,
}
use go_flash_job.Model.{TaskStatus, running, success, retry, dead, Task, TaskCommand}
use go_flash_job.Redis.{
  ZKey, global_queue, active_tasks, HKey, SKey, Value, plain, int, json, Redis,
}
use go_flash_job.Redis.World.{Res, ok, err, World, call, call_keeps, bind_keeps, send_kafka-db}
use go_flash_job.Status.{is_terminal, hset_all, index_task}
use go_flash_job.Detail.{save_task_detail}
use go_flash_job.Redis.Laws.{reads_at}
use go_flash_job.Fsm.{save_dead_task}
use go_flash_job.Backoff.{backoff, after}
use go_flash_job.Executor.{
  Response, execute_http_callback, retry_task, dead_task, count_retry, update_task_state,
  send_log_to_kafka, handle_task_dead, schedule_retry, finish_task, retry_queued, handle_checked,
}

module _ (R : Redis) (k : SKey) (u : ℤ) where
  -- The string key is set and does not expire before `u`.
  abbrev pub IsMarked : R.Db → Type 0
  IsMarked d = (e : ℤ) × (R.sget d k ≡ some e) × (u ≤ℤ e)

  sget-state_hash :
      (id : String) (s : TaskStatus) (now : ℤ) (d : R.Db) (l : List (String × Value))
      → R.sget (index_task R id s now (hset_all R (HKey.task_state id) l d)) k ≡ R.sget d k
  sget-state_hash id s now d [] = elim (Bool-cases (is_terminal s)) [
    | inl e ↦ rw e (simp reads_at)
    | inr e ↦ rw e (simp reads_at)
  ]
  sget-state_hash id s now d ((f, v) ∷ r) =
      sget-state_hash id s now (R.hset (HKey.task_state id) f v d) r ∙ simp reads_at

  keeps :
      {A : Type 0} (f : R.Db → A × R.Db) (w : World R)
      → ((d : R.Db) → R.sget (f d).1 k ≡ R.sget d k)
      → IsMarked w.db
      → IsMarked (call {R = R} f w).1.db
  keeps f w same h = call_keeps R IsMarked f w h (rw (same w.db) h)

  update_task_state-IsMarked :
      (id : String) (s : TaskStatus) (w : World R)
      → IsMarked w.db
      → IsMarked (update_task_state R id s w).1.db
  unfolding update_task_state
  update_task_state-IsMarked id s w h = elim (Bool-cases (str_eq id "")) [
    | inl e ↦ rw e h
    | inr e ↦ rw e (
        keeps
          (λ d. (
            tt {0},
            index_task R id s w.now (
                hset_all R (HKey.task_state id)
                  (("status", Value.status s) ∷ ("updated_at", int w.now) ∷ []) d),
          ))
          w
          (λ d.
            sget-state_hash id s w.now d
              (("status", Value.status s) ∷ ("updated_at", int w.now) ∷ []))
          h)
  ]

  send_log_to_kafka-IsMarked :
      (c : TaskCommand) (s cost : ℤ) (e : String) (w : World R)
      → IsMarked w.db
      → IsMarked (send_log_to_kafka R c s cost e w).1.db
  unfolding send_log_to_kafka
  send_log_to_kafka-IsMarked c s cost e w h =
      rw
        (send_kafka-db R
          (record {
            job_id = c.id;
            name = c.name;
            callback_url = c.callback_url;
            status = s;
            cost_ms = cost;
            retry = c.retry_count;
            timestamp = w.now;
            error_msg = e;
          })
          w)
        h

  save_dead_task-IsMarked :
      (t : Task) (e : String) (w : World R) → IsMarked w.db → IsMarked (save_dead_task R t e w).1.db
  unfolding save_dead_task
  save_dead_task-IsMarked t e w h =
      bind_keeps R IsMarked _ _
        (keeps
          (λ d. (
            tt {0},
            hset_all R (HKey.dead_detail t.id)
                (("id", plain t.id)
                  ∷ ("name", plain t.name)
                  ∷ ("callback_url", plain t.callback_url)
                  ∷ ("retry_count", int t.retry_count)
                  ∷ ("error", plain e)
                  ∷ ("dead_at", int w.now)
                  ∷ [])
                d,
          ))
          w (λ d. simp reads_at) h)
        (λ a v. keeps (λ d. (tt {0}, R.zadd ZKey.dead_queue w.now t.id d)) v (λ d. simp reads_at))

  save_task_detail-IsMarked :
      (t : Task) (w : World R) → IsMarked w.db → IsMarked (save_task_detail R t w).1.db
  unfolding save_task_detail
  save_task_detail-IsMarked t w h =
      keeps
        (λ d. (
          tt {0},
          R.zadd active_tasks w.now t.id (R.hset (HKey.task_detail t.id) "data" (json t) d),
        ))
        w (λ d. simp reads_at) h

  retry_queued-IsMarked :
      (c : TaskCommand) (cost : ℤ) (e : String) (r : Res (Unit {0})) (w : World R)
      → IsMarked w.db
      → IsMarked (retry_queued R c cost e r w).1.db
  unfolding retry_queued
  retry_queued-IsMarked c cost e (err x) w h = h
  retry_queued-IsMarked c cost e (ok u) w h =
      send_log_to_kafka-IsMarked c (pos 1) cost e (update_task_state R c.id retry w).1
        (update_task_state-IsMarked c.id retry w h)

  schedule_retry-IsMarked :
      (c : TaskCommand) (retry_at cost : ℤ) (e : String) (w : World R)
      → IsMarked w.db
      → IsMarked (schedule_retry R c retry_at cost e w).1.db
  unfolding schedule_retry
  schedule_retry-IsMarked c retry_at cost e w h =
      let w₁ = (save_task_detail R (retry_task c retry_at) w).1 in
      retry_queued-IsMarked c cost e _ _ (
        keeps (λ d. (tt {0}, R.zadd global_queue retry_at c.id d)) w₁ (λ d. simp reads_at)
          (save_task_detail-IsMarked (retry_task c retry_at) w h))

  handle_task_dead-IsMarked :
      (c : TaskCommand) (e : String) (w : World R)
      → IsMarked w.db
      → IsMarked (handle_task_dead R c e w).1.db
  unfolding handle_task_dead
  handle_task_dead-IsMarked c e w h =
      let w₁ = (save_dead_task R (dead_task c) e w).1 in
      send_log_to_kafka-IsMarked c (pos 2) (pos 0) e (update_task_state R c.id dead w₁).1
        (update_task_state-IsMarked c.id dead w₁ (save_dead_task-IsMarked (dead_task c) e w h))

  finish_task-IsMarked :
      (frac jitter : ℕ) (cost : ℤ) (c : TaskCommand) (r : Option String) (w : World R)
      → IsMarked w.db
      → IsMarked (finish_task R frac jitter cost c r w).1.db
  unfolding finish_task
  finish_task-IsMarked frac jitter cost c none w h =
      send_log_to_kafka-IsMarked c (pos 0) cost "" (update_task_state R c.id success w).1
        (update_task_state-IsMarked c.id success w h)
  finish_task-IsMarked frac jitter cost c (some e) w h =
      let n = count_retry c in
      elim (Bool-cases (ltb_ℤ n.max_retry n.retry_count)) [
        | inl b ↦ rw b (handle_task_dead-IsMarked n e w h)
        | inr b ↦
            rw b (
              schedule_retry-IsMarked n (after w.now frac (backoff n.retry_count jitter)) cost e w
                h)
      ]

  pub handle_checked-IsMarked :
      (http : TaskCommand → Response) (frac jitter : ℕ) (cost : ℤ) (c : TaskCommand) (r : Res Bool)
      (w : World R)
      → IsMarked w.db
      → IsMarked (handle_checked R http frac jitter cost c r w).1.db
  unfolding handle_checked
  handle_checked-IsMarked http frac jitter cost c (err x) w h = h
  handle_checked-IsMarked http frac jitter cost c (ok true) w h = h
  handle_checked-IsMarked http frac jitter cost c (ok false) w h =
      let w₁ = (update_task_state R c.id running w).1 in
      bind_keeps R IsMarked (finish_task R frac jitter cost c (execute_http_callback http c) w₁) _
        (finish_task-IsMarked frac jitter cost c (execute_http_callback http c) w₁
          (update_task_state-IsMarked c.id running w h))
        (λ a v g. g)
