-- ===== src/Recovery/Clean.antt =====
-- CleanTerminalStates, and what it takes from a job that was submitted again.
use Prim.Native.String.{String}
use text.Mathlib.Text.{◌==◌ as str_eq}
use go_flash_job.Base.{
  length-not_zero, ◌<◌, ◌≡◌, refl, ap, ◌∙◌, ◌≢◌, Bool, true, false, ◌||◌, Option, none, some, List,
  [], ◌∷◌, arith, if◌then◌else◌, length, ℤ,
}
use go_flash_job.Model.{TaskStatus, Task, Event}
use go_flash_job.Redis.{global_queue, terminal_tasks, find, keep_in_range, Redis}
use go_flash_job.Redis.World.{Link, up, ok, World}
use go_flash_job.Status.{status_field}
use go_flash_job.Detail.{detail_field}
use text.Mathlib.TextPositions.{eq_refl}
use go_flash_job.Redis.Laws.{reads_at}
use go_flash_job.Fsm.{Fsm, fire}
use go_flash_job.Fsm.Fire.{AllKeep}
use go_flash_job.Fsm.Race.{fire_missing}
use go_flash_job.Service.{refused, with_defaults, submit_job}
use go_flash_job.Service.Submit.{submit_job-Stored}
use go_flash_job.Recovery.{members, clear_states, clean_terminal_states}

-- Whether a text is in the list.
abbrev pub has : String → List String → Bool
has m [] = false
has m (j ∷ r) = str_eq j m || has m r

abbrev pub is_found : Option ℤ → Bool
is_found none = false
is_found (some s) = true

has-members : (m : String) (l : List (String × ℤ)) → has m (members l) ≡ is_found (find m l)
has-members m [] = refl
has-members m ((j, s) ∷ r) = ground (arith, has-members m r)

module _ (R : Redis) where
  clear_states_state :
      (ids : List String) (d : R.Db) (m : String)
      → status_field R (clear_states R ids d) m ≡ (if has m ids then none else status_field R d m)
  unfolding clear_states
  clear_states_state [] d m = refl
  clear_states_state (j ∷ r) d m = clear_states_state r _ m ∙ simp reads_at (ground arith)

  clear_states_detail :
      (ids : List String) (d : R.Db) (m : String)
      → detail_field R (clear_states R ids d) m ≡ (if has m ids then none else detail_field R d m)
  unfolding clear_states
  clear_states_detail [] d m = refl
  clear_states_detail (j ∷ r) d m = clear_states_detail r _ m ∙ simp reads_at (ground arith)

  clear_states_queue :
      (ids : List String) (d : R.Db) (m : String)
      → R.zscore (clear_states R ids d) global_queue m ≡ R.zscore d global_queue m
  unfolding clear_states
  clear_states_queue [] d m = refl
  clear_states_queue (j ∷ r) d m = clear_states_queue r _ m ∙ simp reads_at

  clean_db :
      (before : ℤ) (w : World R)
      → w.links ≡ []
      → (clean_terminal_states R before w).1.db
        ≡ clear_states R (members (R.zrange_limit 1000 w.db terminal_tasks (some before))) w.db
  unfolding clean_terminal_states clear_states
  clean_db before w on = clean_db_by (R.zrange_limit 1000 w.db terminal_tasks (some before)) refl
    where
      clean_db_by :
          (l : List (String × ℤ))
          → R.zrange_limit 1000 w.db terminal_tasks (some before) ≡ l
          → (clean_terminal_states R before w).1.db ≡ clear_states R (members l) w.db
      clean_db_by [] e = rw (on, e)
      clean_db_by (x ∷ r) e = rw (on, e, length-not_zero x r)

  -- With the network up and fewer than 1000 tasks to clear, exactly the tasks in the terminal
  -- index up to the given time lose their state and their detail; the global queue stays.
  pub clean_terminal_states-clears :
      (before : ℤ) (w : World R) (m : String)
      → w.links ≡ []
      → length (R.zrange_limit 1000 w.db terminal_tasks (some before)) < 1000
      → let d' = (clean_terminal_states R before w).1.db in
        let old = is_found (keep_in_range (some before) (R.zscore w.db terminal_tasks m)) in
        (status_field R d' m ≡ (if old then none else status_field R w.db m))
        × (detail_field R d' m ≡ (if old then none else detail_field R w.db m))
        × (R.zscore d' global_queue m ≡ R.zscore w.db global_queue m)
  clean_terminal_states-clears before w m on few =
      let l = R.zrange_limit 1000 w.db terminal_tasks (some before) in
      let full : l ≡ R.zrange w.db terminal_tasks (some before) =
        R.zrange_limit-short 1000 w.db terminal_tasks (some before) few in
      let found : has m (members l)
          ≡ is_found (keep_in_range (some before) (R.zscore w.db terminal_tasks m)) =
        has-members m l
        ∙ ap is_found (ap (find m) full ∙ R.find-zrange w.db terminal_tasks (some before) m) in
      rw (clean_db before w on, clear_states_state, clear_states_detail, clear_states_queue, found)
        (refl, refl, refl)

  -- A finished job that is submitted again is still in the terminal index. When
  -- CleanTerminalStates then runs on the same database, with the network up, a bound that covers
  -- the old entry and fewer than 1000 tasks to clear, the new job loses its detail while it
  -- stands in the global queue, and Fire succeeds on it for no event, if the hooks leave the
  -- statuses alone.
  pub clean_terminal_states-submitted :
      (f : Fsm R) (t : Task) (w w' : World R) (l : List Link) (before finished : ℤ) (e : Event)
      → ((s : TaskStatus) → AllKeep R (f.hooks s))
      → w.links ≡ up ∷ l
      → refused t ≡ none
      → keep_in_range (some before) (R.zscore w.db terminal_tasks t.id) ≡ some finished
      → w'.db ≡ (submit_job R t w).1.db
      → w'.links ≡ []
      → length (R.zrange_limit 1000 w'.db terminal_tasks (some before)) < 1000
      → let w₁ = (clean_terminal_states R before w').1 in
        (R.zscore w₁.db global_queue t.id ≡ some (with_defaults w.now t).trigger_time)
        × (detail_field R w₁.db t.id ≡ none)
        × ((fire R f e t w₁).0 ≢ ok tt)
  unfolding with_defaults
  clean_terminal_states-submitted f t w w' l before finished e keep on fine old same on' few =
      let (d', run, stored) = submit_job-Stored R t w l on fine in
      let here : w'.db ≡ d' = same ∙ ap (λ r. r.1.db) run in
      let cleared = clean_terminal_states-clears before w' t.id on' few in
      let still : R.zscore w'.db terminal_tasks t.id ≡ R.zscore w.db terminal_tasks t.id =
        ap (λ d. R.zscore d terminal_tasks t.id) here ∙ stored.terminal t.id in
      let gone : is_found (keep_in_range (some before) (R.zscore w'.db terminal_tasks t.id))
          ≡ true =
        rw (still, old) in
      (
        cleared.2 ∙ rw here (stored.queued t.id ∙ rw eq_refl),
        cleared.1 ∙ rw gone,
        (fire_missing R f e t (clean_terminal_states R before w').1 keep (cleared.0 ∙ rw gone)).0,
      )
