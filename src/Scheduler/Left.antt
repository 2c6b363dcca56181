-- ===== src/Scheduler/Left.antt =====
-- What a round of fetcherLoop leaves in the database while the network is up.
use Prim.Native.String.{String}
use text.Mathlib.Text.{◌==◌ as str_eq}
use go_flash_job.Base.{
  ◌≡◌, refl, ◌∙◌, inl, inr, false, some, List, [], ◌∷◌, map, Bool-cases, ℤ, ◌+ℤ◌,
}
use go_flash_job.Model.{ready, Task}
use go_flash_job.Redis.{ZKey, global_queue, active_tasks, SKey, status, zkey_eq, Redis}
use go_flash_job.Redis.Laws.{reads_at}
use go_flash_job.Status.{status_field, set_status}
use go_flash_job.Status.Writes.{status-set_status}
use go_flash_job.Scheduler.{
  preload_window, is_aged, age, any_aged, move_expired, fetch_expired, store_aged,
}
use go_flash_job.Scheduler.Dispatch.{AllHave}
use go_flash_job.Scheduler.Rounds.{store_aged-zscore}
use text.Mathlib.TextPositions.{eq_refl}
use go_flash_job.Scheduler.Placed.{all_ready, aged_db, due_tasks, round_db}

module _ (R : Redis) where
  ready-queue :
      (t : Task) (now : ℤ) (d : R.Db) (k : ZKey) (m : String)
      → zkey_eq active_tasks k ≡ false
      → R.zscore (set_status R t ready now d) k m ≡ R.zscore d k m
  unfolding set_status
  ready-queue t now d k m other = simp reads_at (rw other refl)

  all_ready-queue :
      (now : ℤ) (ts : List Task) (d : R.Db) (k : ZKey) (m : String)
      → zkey_eq active_tasks k ≡ false
      → R.zscore (all_ready R now ts d) k m ≡ R.zscore d k m
  all_ready-queue now [] d k m other = refl
  all_ready-queue now (t ∷ r) d k m other =
      all_ready-queue now r _ k m other ∙ ready-queue t now d k m other

  aged_db-queue :
      (now : ℤ) (ts : List Task) (d : R.Db) (k : ZKey) (m : String)
      → R.zscore (aged_db R now ts d) k m ≡ R.zscore d k m
  aged_db-queue now ts d k m = elim (Bool-cases (any_aged now ts)) [
    | inl e ↦ rw e (store_aged-zscore R m now ts d k)
    | inr e ↦ rw e refl
  ]

  pub round_db-queue :
      (now : ℤ) (d : R.Db) (k : ZKey) (m : String)
      → zkey_eq active_tasks k ≡ false
      → R.zscore (round_db R now d) k m ≡ R.zscore (fetch_expired R (now +ℤ preload_window) d).1 k m
  unfolding fetch_expired
  round_db-queue now d k m other =
      let l = R.zrange d global_queue (some (now +ℤ preload_window)) in
      let ts = due_tasks R d l in
      all_ready-queue now (map (age now) ts) _ k m other ∙ aged_db-queue now ts _ k m

  -- The keys of the executors are left alone.
  store_aged-sget :
      (now : ℤ) (ts : List Task) (d : R.Db) (k : SKey)
      → R.sget (store_aged R now ts d) k ≡ R.sget d k
  unfolding store_aged
  store_aged-sget now [] d k = refl
  store_aged-sget now (t ∷ r) d k = elim (Bool-cases (is_aged now t)) [
    | inl e ↦ rw e (store_aged-sget now r _ k ∙ simp reads_at)
    | inr e ↦ rw e (store_aged-sget now r d k)
  ]

  aged_db-sget :
      (now : ℤ) (ts : List Task) (d : R.Db) (k : SKey) → R.sget (aged_db R now ts d) k ≡ R.sget d k
  aged_db-sget now ts d k = elim (Bool-cases (any_aged now ts)) [
    | inl e ↦ rw e (store_aged-sget now ts d k)
    | inr e ↦ rw e refl
  ]

  move_expired-sget :
      (l : List (String × ℤ)) (d : R.Db) (k : SKey) → R.sget (move_expired R l d) k ≡ R.sget d k
  unfolding move_expired
  move_expired-sget [] d k = refl
  move_expired-sget ((m, s) ∷ l) d k = move_expired-sget l _ k ∙ simp reads_at

  ready-sget :
      (t : Task) (now : ℤ) (d : R.Db) (k : SKey)
      → R.sget (set_status R t ready now d) k ≡ R.sget d k
  unfolding set_status
  ready-sget t now d k = simp reads_at

  all_ready-sget :
      (now : ℤ) (ts : List Task) (d : R.Db) (k : SKey)
      → R.sget (all_ready R now ts d) k ≡ R.sget d k
  all_ready-sget now [] d k = refl
  all_ready-sget now (t ∷ r) d k = all_ready-sget now r _ k ∙ ready-sget t now d k

  pub round_db-sget : (now : ℤ) (d : R.Db) (k : SKey) → R.sget (round_db R now d) k ≡ R.sget d k
  round_db-sget now d k =
      let l = R.zrange d global_queue (some (now +ℤ preload_window)) in
      let ts = due_tasks R d l in
      all_ready-sget now (map (age now) ts) _ k ∙ aged_db-sget now ts _ k ∙ move_expired-sget l d k

  -- A status that is READY stays so while others become it.
  kept_ready :
      (now : ℤ) (ts : List Task) (d : R.Db) (id : String)
      → status_field R d id ≡ some (status ready)
      → status_field R (all_ready R now ts d) id ≡ some (status ready)
  kept_ready now [] d id h = h
  kept_ready now (t ∷ r) d id h = kept_ready now r _ id (
      status-set_status R d t ready now id
      ∙ elim (Bool-cases (str_eq t.id id)) [ inl e ↦ rw e refl | inr e ↦ rw e h ])

  pub all_ready-AllHave :
      (now : ℤ) (ts : List Task) (d : R.Db) → AllHave R ready (all_ready R now ts d) ts
  all_ready-AllHave now [] d = tt
  all_ready-AllHave now (t ∷ r) d = (
    kept_ready now r _ t.id (status-set_status R d t ready now t.id ∙ rw (eq_refl t.id) refl),
    all_ready-AllHave now r _,
  )
