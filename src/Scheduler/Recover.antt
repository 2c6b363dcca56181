-- ===== src/Scheduler/Recover.antt =====
-- The recovery of pending tasks, and that the queues lose no job.
use Prim.Native.String.{String}
use go_flash_job.Base.{
  ◌<◌, ◌≡◌, refl, ap, ◌∙◌, inl, inr, Bool, true, false, ◌||◌, Option, none, some, List, [], ◌∷◌,
  arith, ◌==◌, Bool-cases, length, ℤ,
}
use go_flash_job.Redis.{global_queue, pending_queue, find, keep_in_range, Redis}
use go_flash_job.Redis.World.{tail_links, World, read, call_keeps, bind_keeps}
use go_flash_job.Redis.Laws.{zscore-zadd, zscore-zrem}
use go_flash_job.Scheduler.{
  recover_pending_batch, fetch_expired, requeue, recover_up_to, requeue_all,
}
use go_flash_job.Scheduler.Queues.{unless, fetch_expired-Fetched}

-- The new score, where there is one to replace.
abbrev pub given : Option ℤ → ℤ → Option ℤ → Option ℤ
given (some s) now old = some now
given none now old = old

module _ (R : Redis) where
  requeue_global :
      (now : ℤ) (l : List (String × ℤ)) (d : R.Db) (m : String)
      → R.zscore (requeue R now l d) global_queue m
        ≡ given (find m l) now (R.zscore d global_queue m)
  unfolding requeue
  requeue_global now [] d m = refl
  requeue_global now ((j, s) ∷ r) d m =
      requeue_global now r _ m ∙ rw (zscore-zrem, zscore-zadd) (ground arith)

  requeue_pending :
      (now : ℤ) (l : List (String × ℤ)) (d : R.Db) (m : String)
      → R.zscore (requeue R now l d) pending_queue m
        ≡ unless (find m l) (R.zscore d pending_queue m)
  unfolding requeue
  requeue_pending now [] d m = refl
  requeue_pending now ((j, s) ∷ r) d m =
      requeue_pending now r _ m ∙ rw (zscore-zrem, zscore-zadd) (ground arith)

  abbrev is_some : Option ℤ → Bool
  is_some none = false
  is_some (some s) = true

  -- The job is in the global or in the pending queue.
  abbrev pub is_queued : R.Db → String → Bool
  is_queued d m = is_some (R.zscore d global_queue m) || is_some (R.zscore d pending_queue m)

  pub requeue-is_queued :
      (now : ℤ) (l : List (String × ℤ)) (d : R.Db) (m : String)
      → is_queued d m ≡ true
      → is_queued (requeue R now l d) m ≡ true
  requeue-is_queued now l d m h =
      rw (requeue_global now l d m, requeue_pending now l d m) (ground arith)

  pub move_expired-is_queued :
      (top : ℤ) (d : R.Db) (m : String)
      → is_queued d m ≡ true
      → is_queued (fetch_expired R top d).1 m ≡ true
  move_expired-is_queued top d m h =
      let f = fetch_expired-Fetched R top d in rw (f.global m, f.pending m) (ground arith)

  requeue_all-is_queued :
      (ids : List (String × ℤ)) (w : World R) (m : String)
      → is_queued w.db m ≡ true
      → is_queued (requeue_all R ids w).1.db m ≡ true
  unfolding requeue_all
  requeue_all-is_queued ids w m h = elim (Bool-cases (length ids == 0)) [
    | inl e ↦ rw e h
    | inr e ↦ rw e (
        call_keeps R (λ d. is_queued d m ≡ true) (λ d. (tt {0}, requeue R w.now ids d)) w h
          (requeue-is_queued w.now ids w.db m h))
  ]

  -- Recovery from the pending queue loses no job, however its calls end.
  pub recover_up_to-is_queued :
      (deadline : ℤ) (w : World R) (m : String)
      → is_queued w.db m ≡ true
      → is_queued (recover_up_to R deadline w).1.db m ≡ true
  unfolding recover_up_to
  recover_up_to-is_queued deadline w m h =
      let range =
        λ (d : R.Db). R.zrange_limit recover_pending_batch d pending_queue (some deadline) in
      bind_keeps R (λ d. is_queued d m ≡ true) (read {R = R} range w) (requeue_all R)
        (call_keeps R (λ d. is_queued d m ≡ true) (λ d. (range d, d)) w h h)
        (λ ids w'. requeue_all-is_queued ids w' m)

  requeue_all_db :
      (ids : List (String × ℤ)) (w : World R)
      → w.links ≡ []
      → (requeue_all R ids w).1.db ≡ requeue R w.now ids w.db
  unfolding requeue_all requeue
  requeue_all_db [] w h = refl
  requeue_all_db ((i, s) ∷ r) w h = ground arith

  recover_up_to_db :
      (deadline : ℤ) (w : World R)
      → w.links ≡ []
      → (recover_up_to R deadline w).1.db
        ≡ requeue R w.now
            (R.zrange_limit recover_pending_batch w.db pending_queue (some deadline))
            w.db
  unfolding recover_up_to
  recover_up_to_db deadline w h =
      let l = R.zrange_limit recover_pending_batch w.db pending_queue (some deadline) in
      ground (arith, requeue_all_db l (record w { links = tail_links w.links }))

  -- With the network up and fewer than 1000 tasks to recover, exactly the tasks that stood in the
  -- pending queue with a score up to `deadline` are back in the global queue, due now.
  pub recover_up_to-moves :
      (deadline : ℤ) (w : World R) (m : String)
      → w.links ≡ []
      → length (R.zrange_limit recover_pending_batch w.db pending_queue (some deadline))
        < recover_pending_batch
      → let d' = (recover_up_to R deadline w).1.db in
        let stale = keep_in_range (some deadline) (R.zscore w.db pending_queue m) in
        (R.zscore d' global_queue m ≡ given stale w.now (R.zscore w.db global_queue m))
        × (R.zscore d' pending_queue m ≡ unless stale (R.zscore w.db pending_queue m))
  recover_up_to-moves deadline w m on few =
      let l = R.zrange_limit recover_pending_batch w.db pending_queue (some deadline) in
      let full : l ≡ R.zrange w.db pending_queue (some deadline) =
        R.zrange_limit-short recover_pending_batch w.db pending_queue (some deadline) few in
      let found : find m l ≡ keep_in_range (some deadline) (R.zscore w.db pending_queue m) =
        ap (find m) full ∙ R.find-zrange w.db pending_queue (some deadline) m in
      let done : (recover_up_to R deadline w).1.db ≡ requeue R w.now l w.db =
        recover_up_to_db deadline w on in
      rw (done, requeue_global w.now l w.db m, requeue_pending w.now l w.db m, found) (refl, refl)
