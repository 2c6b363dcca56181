-- ===== src/Status/Writes.antt =====
-- What the per-task writes leave to be read.
use Prim.Native.String.{String}
use text.Mathlib.Text.{◌==◌ as str_eq}
use go_flash_job.Base.{
  ◌≡◌, refl, ap, ◌∙◌, ◌≢◌, inl, inr, Bool, true, false, ◌&&◌, Option, none, some, if◌then◌else◌,
  Bool-cases, ℤ,
}
use go_flash_job.Model.{TaskStatus, Task}
use go_flash_job.Redis.{active_tasks, terminal_tasks, HKey, Value, status, Redis}
use go_flash_job.Redis.Laws.{zscore-zadd, zscore-zrem, reads}
use go_flash_job.Status.{
  is_terminal, as_status, hset_all, state_fields, index_task, status_field, set_status,
}

module _ (R : Redis) (d : R.Db) where
  -- The status of every task, after the state hash of `t` is written.
  pub status-state_fields :
      (t : Task) (s : TaskStatus) (now : ℤ) (id : String)
      → status_field R (hset_all R (HKey.task_state t.id) (state_fields R t s now) d) id
        ≡ (if str_eq t.id id then some (status s) else status_field R d id)
  status-state_fields t s now id =
      simp reads (elim (Bool-cases (str_eq t.id id)) [ inl e ↦ rw e | inr e ↦ rw e ])

  -- The details are left alone.
  pub detail-state_fields :
      (t : Task) (s : TaskStatus) (now : ℤ) (id : String) (f : String)
      → R.hget
          (hset_all R (HKey.task_state t.id) (state_fields R t s now) d)
          (HKey.task_detail id)
          f
        ≡ R.hget d (HKey.task_detail id) f
  detail-state_fields t s now id f = simp reads

  pub status-index_task :
      (i : String) (s : TaskStatus) (now : ℤ) → R.hget (index_task R i s now d) ≡ R.hget d
  status-index_task i s now = elim (Bool-cases (is_terminal s)) [
    | inl e ↦ rw e (simp reads)
    | inr e ↦ rw e (simp reads)
  ]

  pub zscore-state_fields :
      (t : Task) (s : TaskStatus) (now : ℤ)
      → R.zscore (hset_all R (HKey.task_state t.id) (state_fields R t s now) d) ≡ R.zscore d
  zscore-state_fields t s now = simp reads

-- A task with a terminal status is in the terminal index and not in the active one; with any
-- other status it is in the active index.
abbrev IndexedAs : Option Value → Option ℤ → Option ℤ → Type 0
IndexedAs none a t = Unit
IndexedAs (some v) a t =
    if is_terminal (as_status (some v)) then (a ≡ none) × (t ≢ none) else a ≢ none

pub IndexedAs-eq :
    {v v' : Option Value} {a a' t t' : Option ℤ}
    → v ≡ v'
    → a ≡ a'
    → t ≡ t'
    → IndexedAs v' a' t'
    → IndexedAs v a t
IndexedAs-eq p q r h = rw (p, q, r) h

abbrev pub IsIndexed : (R : Redis) → R.Db → String → Type 0
IsIndexed R d id =
    IndexedAs (status_field R d id) (R.zscore d active_tasks id) (R.zscore d terminal_tasks id)

settle :
    (b same : Bool) (v : Option Value) (a t : Option ℤ) (s : TaskStatus) (now : ℤ)
    → is_terminal s ≡ b
    → (same ≡ true → v ≡ some (status s))
    → (same ≡ false → IndexedAs v a t)
    → IndexedAs v
        (if same then (if b then none else some now) else a)
        (if b && same then some now else t)
settle true false v a t s now e new old = old refl
settle false false v a t s now e new old = old refl
settle true true v a t s now e new old = rw (new refl, e) (refl, λ p. cc p)
settle false true v a t s now e new old = rw (new refl, e) (λ p. cc p)

module _ (R : Redis) (d : R.Db) (i : String) (s : TaskStatus) (now : ℤ) (id : String) where
  pub active-index_task : R.zscore (index_task R i s now d) active_tasks id ≡ (
      if str_eq i id
      then (if is_terminal s then none else some now)
      else R.zscore d active_tasks id)
  active-index_task = elim (Bool-cases (is_terminal s)) [
    | inl e ↦ rw (e, zscore-zadd, zscore-zrem)
    | inr e ↦ rw (e, zscore-zadd)
  ]

  pub terminal-index_task :
      R.zscore (index_task R i s now d) terminal_tasks id
      ≡ (if is_terminal s && str_eq i id then some now else R.zscore d terminal_tasks id)
  terminal-index_task = elim (Bool-cases (is_terminal s)) [
    | inl e ↦ rw (e, zscore-zadd, zscore-zrem)
    | inr e ↦ rw (e, zscore-zadd)
  ]

  -- A task whose status has just been written is indexed by it, and the others stay as they were.
  pub index_task-IsIndexed :
      (str_eq i id ≡ true → status_field R d id ≡ some (status s))
      → (str_eq i id ≡ false → IsIndexed R d id)
      → IsIndexed R (index_task R i s now d) id
  index_task-IsIndexed new old =
      IndexedAs-eq (ap (λ g. g (HKey.task_state id) "status") (status-index_task R d i s now))
        active-index_task terminal-index_task
        (settle (is_terminal s) (str_eq i id) (status_field R d id) (R.zscore d active_tasks id)
          (R.zscore d terminal_tasks id) s now refl new old)

module _ (R : Redis) (d : R.Db) where
  -- Writing a status together with its index entry keeps every task indexed.
  pub set_status-IsIndexed :
      (t : Task) (s : TaskStatus) (now : ℤ) (id : String)
      → IsIndexed R d id
      → IsIndexed R (set_status R t s now d) id
  unfolding set_status
  set_status-IsIndexed t s now id h =
      index_task-IsIndexed R _ t.id s now id (λ same. rw (status-state_fields R d t s now id, same))
        (λ other.
          IndexedAs-eq (status-state_fields R d t s now id ∙ rw other)
            (ap (λ z. z active_tasks id) (zscore-state_fields R d t s now))
            (ap (λ z. z terminal_tasks id) (zscore-state_fields R d t s now)) h)

  -- The status of every task, after one has been set.
  pub status-set_status :
      (t : Task) (s : TaskStatus) (now : ℤ) (id : String)
      → status_field R (set_status R t s now d) id
        ≡ (if str_eq t.id id then some (status s) else status_field R d id)
  unfolding set_status
  status-set_status t s now id =
      ap (λ g. g (HKey.task_state id) "status")
        (status-index_task R (hset_all R (HKey.task_state t.id) (state_fields R t s now) d) t.id s
          now)
      ∙ status-state_fields R d t s now id
