-- ===== src/Lifecycle/Kept.antt =====
-- No background round loses a job from the queues or takes a task out of its index.
use Prim.Native.String.{String}
use text.Mathlib.Text.{◌==◌ as str_eq}
use go_flash_job.Base.{◌≡◌, refl, ◌∙◌, inl, inr, true, none, List, [], ◌∷◌, arith, Bool-cases, ℤ}
use go_flash_job.Model.{TaskStatus, Task}
use go_flash_job.Redis.{global_queue, active_tasks, terminal_tasks, HKey, Redis}
use go_flash_job.Redis.World.{World}
use go_flash_job.Redis.Laws.{reads_at}
use go_flash_job.Status.{is_terminal, status_field, set_status}
use go_flash_job.Status.Writes.{IndexedAs-eq, IsIndexed, set_status-IsIndexed}
use go_flash_job.Scheduler.{requeue}
use go_flash_job.Scheduler.Recover.{is_queued, requeue-is_queued}
use go_flash_job.Recovery.{clear_states}
use go_flash_job.Lifecycle.{Round, run_rounds}
use go_flash_job.Lifecycle.Rounds.{IsStable, run_rounds-Keeps}

module _ (R : Redis) where
  -- The indexes and the status of a task are those of another database.
  IsIndexed-same :
      (d d' : R.Db) (id : String)
      → status_field R d' id ≡ status_field R d id
      → R.zscore d' active_tasks id ≡ R.zscore d active_tasks id
      → R.zscore d' terminal_tasks id ≡ R.zscore d terminal_tasks id
      → IsIndexed R d id
      → IsIndexed R d' id
  IsIndexed-same d d' id e a t h = IndexedAs-eq e a t h

  stateless-IsIndexed : (d : R.Db) (id : String) → status_field R d id ≡ none → IsIndexed R d id
  stateless-IsIndexed d id e = rw e tt

  cleared-IsIndexed :
      (j id : String) (d : R.Db)
      → IsIndexed R d id
      → IsIndexed R
          (R.zrem terminal_tasks j (R.del (HKey.task_detail j) (R.del (HKey.task_state j) d)))
          id
  cleared-IsIndexed j id d h = elim (Bool-cases (str_eq j id)) [
    | inl same ↦ stateless-IsIndexed _ id (simp (reads_at, same))
    | inr other ↦
        IsIndexed-same d _ id (simp (reads_at, other)) (simp reads_at) (simp (reads_at, other)) h
  ]

  clear_states-IsIndexed :
      (ids : List String) (id : String) (d : R.Db)
      → IsIndexed R d id
      → IsIndexed R (clear_states R ids d) id
  unfolding clear_states
  clear_states-IsIndexed [] id d h = h
  clear_states-IsIndexed (j ∷ r) id d h = clear_states-IsIndexed r id _ (cleared-IsIndexed j id d h)

  requeue-IsIndexed :
      (now : ℤ) (l : List (String × ℤ)) (id : String) (d : R.Db)
      → IsIndexed R d id
      → IsIndexed R (requeue R now l d) id
  unfolding requeue
  requeue-IsIndexed now [] id d h = h
  requeue-IsIndexed now ((j, s) ∷ r) id d h =
      requeue-IsIndexed now r id _
        (IsIndexed-same d _ id (simp reads_at) (simp reads_at) (simp reads_at) h)

  IsIndexed-stable : (id : String) → IsStable R (λ d. IsIndexed R d id)
  IsIndexed-stable id = record {
    queues = λ s m d h. IsIndexed-same d _ id (simp reads_at) (simp reads_at) (simp reads_at) h;
    sets = λ t s now d h. set_status-IsIndexed R d t s now id h;
    requeues_all = λ now l d h. requeue-IsIndexed now l id d h;
    clears = λ ids d h. clear_states-IsIndexed ids id d h;
  }

  -- The queues are not touched by what a status and its index entry write.
  set_status-queues :
      (t : Task) (s : TaskStatus) (now : ℤ) (d : R.Db) (m : String)
      → is_queued R (set_status R t s now d) m ≡ is_queued R d m
  unfolding set_status
  set_status-queues t s now d m = elim (Bool-cases (is_terminal s)) [
    | inl e ↦ rw e (simp reads_at)
    | inr e ↦ rw e (simp reads_at)
  ]

  clear_states-queues :
      (ids : List String) (d : R.Db) (m : String)
      → is_queued R (clear_states R ids d) m ≡ is_queued R d m
  unfolding clear_states
  clear_states-queues [] d m = refl
  clear_states-queues (j ∷ r) d m = clear_states-queues r _ m ∙ simp reads_at

  queued_again :
      (s : ℤ) (j m : String) (d : R.Db)
      → is_queued R d m ≡ true
      → is_queued R (R.zadd global_queue s j d) m ≡ true
  queued_again s j m d h = simp reads_at (ground arith)

  is_queued-stable : (m : String) → IsStable R (λ d. is_queued R d m ≡ true)
  is_queued-stable m = record {
    queues = λ s j d h. queued_again s j m d h;
    sets = λ t s now d h. set_status-queues t s now d m ∙ h;
    requeues_all = λ now l d h. requeue-is_queued R now l d m h;
    clears = λ ids d h. clear_states-queues ids d m ∙ h;
  }

  -- The recovery at the start of a leader, the return of stale pending tasks, the watch for stuck
  -- tasks and the clearing of finished ones, in any order and over any network: a job that is in
  -- the global or in the pending queue stays in one of them, and a task that is in the index of
  -- its status stays so.
  pub run_rounds-kept :
      (rs : List Round) (w : World R) (m : String)
      → is_queued R w.db m ≡ true
      → IsIndexed R w.db m
      → let w' = (run_rounds R rs w).1 in (is_queued R w'.db m ≡ true) × IsIndexed R w'.db m
  run_rounds-kept rs w m queued indexed = (
    run_rounds-Keeps R (λ d. is_queued R d m ≡ true) (is_queued-stable m) rs w queued,
    run_rounds-Keeps R (λ d. IsIndexed R d m) (IsIndexed-stable m) rs w indexed,
  )
