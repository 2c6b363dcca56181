-- ===== src/Executor/Failure.antt =====
-- What handleTask leaves behind when the callback fails.
use Prim.Native.String.{String}
use text.Mathlib.Text.{◌==◌ as str_eq}
use go_flash_job.Base.{
  ℕ, ◌≡◌, refl, ap, ◌∙◌, true, false, none, some, List, [], ◌∷◌, ℤ, pos, ltb_ℤ, ◌+ℤ◌, suc, ◌<◌, ◌*◌,
  ◌+◌, ◌/◌, arith,
}
use go_flash_job.Model.{retry, dead, TaskCommand}
use go_flash_job.Redis.{
  ZKey, global_queue, dead_queue, active_tasks, terminal_tasks, HKey, plain, int, status, json,
  Redis,
}
use go_flash_job.Redis.World.{Link, up, down, ok, World}
use go_flash_job.Status.{hset_all, status_field}
use go_flash_job.Detail.{detail_field, save_task_detail}
use text.Mathlib.TextPositions.{eq_refl}
use go_flash_job.Redis.Laws.{reads_at}
use go_flash_job.Status.Writes.{active-index_task, terminal-index_task}
use go_flash_job.Fsm.{save_dead_task}
use go_flash_job.Backoff.{backoff, after, second, millisecond}
use go_flash_job.Backoff.Bounds.{seconds, backoff-seconds}
use go_flash_job.Executor.{
  acked, requeued, Response, execute_http_callback, retry_task, dead_task, count_retry, dedupe_key,
  set_if_absent, dedupe_ttl, check_and_mark_idempotency, send_log_to_kafka, handle_task_dead,
  retry_queued, schedule_retry, finish_task, handle_checked, handle_task,
}
use go_flash_job.Executor.Once.{==ℤ_refl}
use go_flash_job.Executor.Outcome.{
  status-state_db, zscore-state_db, detail-state_db, update_up, marked_db, handle_up,
}

pos_add : (a b : ℕ) → pos a +ℤ pos b ≡ pos (a + b)
unfolding ◌+ℤ◌
pos_add a b = ground arith

after_pos : (now : ℤ) (frac n : ℕ) → after now frac (pos n) ≡ now +ℤ pos ((n + frac) / 1000000000)
unfolding after
after_pos now frac n = rw (after, pos_add n frac) refl

module _ (R : Redis) (http : TaskCommand → Response) (frac jitter : ℕ) (cost : ℤ) (c : TaskCommand)
    (w : World R) (fresh : R.sget w.db (dedupe_key R c) ≡ none) (named : str_eq c.id "" ≡ false)
    (addressed : str_eq c.callback_url "" ≡ false) (e : String)
    (failing : execute_http_callback http c ≡ some e) where
  abbrev counted : TaskCommand
  counted = count_retry c

  abbrev retry_at : ℤ
  retry_at = after w.now frac (backoff counted.retry_count jitter)

  abbrev detailed_db : R.Db
  detailed_db = R.zadd active_tasks w.now c.id (
      R.hset (HKey.task_detail c.id) "data" (json (retry_task counted retry_at))
        (marked_db R http frac jitter cost c w fresh named addressed))

  retries :
      (l : List Link)
      → w.links ≡ up ∷ up ∷ up ∷ up ∷ up ∷ up ∷ l
      → ltb_ℤ counted.max_retry counted.retry_count ≡ false
      → let w' = (handle_task R http frac jitter cost c w).1 in
        ((handle_task R http frac jitter cost c w).0
          ≡ ok (record { answer = acked; called = some c }))
        × (status_field R w'.db c.id ≡ some (status retry))
        × (R.zscore w'.db global_queue c.id ≡ some retry_at)
        × (detail_field R w'.db c.id ≡ some (json (retry_task counted retry_at)))
  unfolding finish_task schedule_retry save_task_detail retry_queued send_log_to_kafka count_retry
      retry_task
  retries l on few =
      let queued = R.zadd global_queue retry_at c.id detailed_db in
      rw
        (
          handle_up R http frac jitter cost c w fresh named addressed (up ∷ up ∷ up ∷ up ∷ l) on,
          failing,
          few,
          update_up R c.id retry (record w { db = queued; links = up ∷ up ∷ l }) (up ∷ l) named
              refl,
        )
        (
          refl,
          status-state_db R c.id retry w.now queued,
          (zscore-state_db R c.id retry w.now queued c.id).0 ∙ simp reads_at,
          detail-state_db R c.id retry w.now queued c.id ∙ simp reads_at,
        )

  -- When the failure counted is the (k+1)th: the clock and the delay, in nanoseconds, cut down to
  -- seconds.
  abbrev pub due_after : ℕ → ℤ
  due_after k = w.now +ℤ pos ((seconds k * 1000000000 + jitter * 1000000 + frac) / 1000000000)

  counted-suc : (k : ℕ) → c.retry_count ≡ pos k → counted.retry_count ≡ pos (suc k)
  unfolding count_retry
  counted-suc k h = rw h (pos_add k 1 ∙ ap pos (omega arith))

  due : (k : ℕ) → c.retry_count ≡ pos k → k < 34 → retry_at ≡ due_after k
  due k h lt =
      rw (counted-suc k h, backoff-seconds k jitter lt)
        (after_pos w.now frac (seconds k * second + jitter * millisecond))

  written :
      (k : ℕ) (at : ℤ)
      → c.retry_count ≡ pos k
      → retry_task counted at ≡ record {
        id = c.id;
        name = c.name;
        callback_url = c.callback_url;
        trigger_time = at;
        priority = c.priority;
        retry_count = pos (suc k);
        max_retry = c.max_retry;
        timeout = c.timeout;
        payload = c.payload;
        enqueue_at = pos 0;
      }
  unfolding retry_task count_retry
  written k at h =
      let n : c.retry_count +ℤ pos 1 ≡ pos (suc k) = counted-suc k h in
      ap
        (λ i. record {
          id = c.id;
          name = c.name;
          callback_url = c.callback_url;
          trigger_time = at;
          priority = c.priority;
          retry_count = i;
          max_retry = c.max_retry;
          timeout = c.timeout;
          payload = c.payload;
          enqueue_at = pos 0;
        })
        n

  -- The callback of a fresh command with an id and a callback URL has failed for the (k+1)th time,
  -- which is not too often and at most the 34th, and every call gets through: the message is
  -- acknowledged; the task is RETRY, due in the global queue after 1, 2, 4, 8, 16 or 30 seconds
  -- and the jitter, counted from the clock's nanoseconds and cut down to seconds; and its detail
  -- is the command's data with the failure counted and the due time as trigger time.
  pub handle_task-retries :
      (k : ℕ) (l : List Link)
      → w.links ≡ up ∷ up ∷ up ∷ up ∷ up ∷ up ∷ l
      → c.retry_count ≡ pos k
      → k < 34
      → ltb_ℤ c.max_retry (pos (suc k)) ≡ false
      → let w' = (handle_task R http frac jitter cost c w).1 in
        ((handle_task R http frac jitter cost c w).0
          ≡ ok (record { answer = acked; called = some c }))
        × (status_field R w'.db c.id ≡ some (status retry))
        × (R.zscore w'.db global_queue c.id ≡ some (due_after k))
        × (detail_field R w'.db c.id
            ≡ some (
                json (record {
                  id = c.id;
                  name = c.name;
                  callback_url = c.callback_url;
                  trigger_time = due_after k;
                  priority = c.priority;
                  retry_count = pos (suc k);
                  max_retry = c.max_retry;
                  timeout = c.timeout;
                  payload = c.payload;
                  enqueue_at = pos 0;
                })))
  unfolding count_retry
  handle_task-retries k l on count early few =
      let n : counted.retry_count ≡ pos (suc k) = counted-suc k count in
      let (answer, state, queued, detail) = retries l on (rw n few) in
      (
        answer,
        state,
        queued ∙ ap some (due k count early),
        detail
            ∙ ap (λ t. some (json t))
                (ap (retry_task counted) (due k count early) ∙ written k (due_after k) count),
      )

  -- The callback of a fresh command with an id and a callback URL has failed more often than
  -- allowed, and every call gets through: the message is acknowledged; the task is DEAD, in the
  -- dead queue, and in the terminal index and not in the active one.
  pub handle_task-dies :
      (l : List Link)
      → w.links ≡ up ∷ up ∷ up ∷ up ∷ up ∷ up ∷ l
      → ltb_ℤ counted.max_retry counted.retry_count ≡ true
      → let w' = (handle_task R http frac jitter cost c w).1 in
        ((handle_task R http frac jitter cost c w).0
          ≡ ok (record { answer = acked; called = some c }))
        × (status_field R w'.db c.id ≡ some (status dead))
        × (R.zscore w'.db dead_queue c.id ≡ some w.now)
        × (R.zscore w'.db active_tasks c.id ≡ none)
        × (R.zscore w'.db terminal_tasks c.id ≡ some w.now)
  unfolding finish_task handle_task_dead save_dead_task send_log_to_kafka dead_task count_retry
  handle_task-dies l on many =
      let buried = R.zadd ZKey.dead_queue w.now c.id (
        hset_all R (HKey.dead_detail c.id)
          (("id", plain c.id)
            ∷ ("name", plain c.name)
            ∷ ("callback_url", plain c.callback_url)
            ∷ ("retry_count", int counted.retry_count)
            ∷ ("error", plain e)
            ∷ ("dead_at", int w.now)
            ∷ [])
          (marked_db R http frac jitter cost c w fresh named addressed)) in
      rw
        (
          handle_up R http frac jitter cost c w fresh named addressed (up ∷ up ∷ up ∷ up ∷ l) on,
          failing,
          many,
          update_up R c.id dead (record w { db = buried; links = up ∷ up ∷ l }) (up ∷ l) named refl,
        )
        (
          refl,
          status-state_db R c.id dead w.now buried,
          (zscore-state_db R c.id dead w.now buried c.id).1 ∙ simp reads_at,
          active-index_task R _ c.id dead w.now c.id ∙ rw eq_refl,
          terminal-index_task R _ c.id dead w.now c.id ∙ rw eq_refl,
        )

  lost_run :
      (l : List Link)
      → w.links ≡ up ∷ up ∷ up ∷ down ∷ l
      → ltb_ℤ counted.max_retry counted.retry_count ≡ false
      → handle_task R http frac jitter cost c w ≡ (
        ok (record { answer = requeued; called = some c }),
        record w { db = detailed_db; links = l },
      )
  unfolding finish_task schedule_retry save_task_detail retry_queued count_retry retry_task
  lost_run l on few =
      rw (
        handle_up R http frac jitter cost c w fresh named addressed (up ∷ down ∷ l) on,
        failing,
        few,
      )

  detailed_queue : (m : String) → R.zscore detailed_db global_queue m ≡ R.zscore w.db global_queue m
  detailed_queue m = simp reads_at

  detailed_key : R.sget detailed_db (dedupe_key R c) ≡ some (w.now +ℤ dedupe_ttl)
  detailed_key = simp reads_at (rw (==ℤ_refl c.trigger_time))

  again :
      (l' : List Link) (w' : World R)
      → w'.db ≡ detailed_db
      → w'.links ≡ up ∷ l'
      → ltb_ℤ w'.now (w.now +ℤ pos 86400) ≡ true
      → handle_task R http frac jitter cost c w'
        ≡ (ok (record { answer = acked; called = none }), record w' { links = l' })
  unfolding handle_task check_and_mark_idempotency handle_checked
  again l' w' here on early =
      let found : R.sget w'.db (dedupe_key R c) ≡ some (w.now +ℤ dedupe_ttl) =
        rw here detailed_key in
      rw (on, set_if_absent, found, early)

  -- The callback of a fresh command with an id and a callback URL has failed, not too often, and
  -- the global queue does not take the retry: handleTask puts the message back; but its dedupe
  -- key is set, so the next delivery, within 86400 seconds from the start of that run and over a
  -- call that gets through, is acknowledged without a callback, and the task's entry in the global queue is what it was before.
  pub handle_task-loses_retry :
      (l l' : List Link) (w' : World R)
      → w.links ≡ up ∷ up ∷ up ∷ down ∷ l
      → ltb_ℤ counted.max_retry counted.retry_count ≡ false
      → w'.db ≡ (handle_task R http frac jitter cost c w).1.db
      → w'.links ≡ up ∷ l'
      → ltb_ℤ w'.now (w.now +ℤ pos 86400) ≡ true
      → ((handle_task R http frac jitter cost c w).0
          ≡ ok (record { answer = requeued; called = some c }))
        × (handle_task R http frac jitter cost c w'
            ≡ (ok (record { answer = acked; called = none }), record w' { links = l' }))
        × (R.zscore w'.db global_queue c.id ≡ R.zscore w.db global_queue c.id)
  handle_task-loses_retry l l' w' on few same on' early =
      let ran = lost_run l on few in
      let here : w'.db ≡ detailed_db = same ∙ ap (λ r. r.1.db) ran in
      (ap (λ r. r.0) ran, again l' w' here on' early, rw here (detailed_queue c.id))
