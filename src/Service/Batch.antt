-- ===== src/Service/Batch.antt =====
-- BatchSubmitJobs against SubmitJob.
use Prim.Native.String.{String}
use text.Mathlib.Text.{◌==◌ as str_eq}
use go_flash_job.Base.{
  length-not_zero, ◌≡◌, refl, sym, ap, ◌∙◌, ◌≢◌, inl, inr, true, false, none, some, List, [], ◌∷◌,
  arith, ◌==◌, if◌then◌else◌, Bool-cases, ℤ, ==_iff,
}
use go_flash_job.Model.{Task, message}
use go_flash_job.Redis.{Redis}
use go_flash_job.Redis.World.{ok, err, World, M, ret, ◌>>◌, ignore_error}
use go_flash_job.Service.{
  refused, with_defaults, is_valid, store_task, submit_job, store_valid, valid_count,
  batch_submit_jobs,
}

refused-is_valid : (t : Task) → is_valid t ≡ true → refused t ≡ none
unfolding refused
refused-is_valid t h = ground arith

refused-not_valid : (t : Task) → is_valid t ≡ false → (e : String) × (refused t ≡ some e)
unfolding refused
refused-not_valid t h = elim (Bool-cases (str_eq t.id "")) [
  | inl e ↦ ("job id is required", rw e)
  | inr e ↦ ("callback_url is required", ground arith)
]

module _ (R : Redis) where
  -- SubmitJob for each task, whatever the others gave.
  unfoldable pub submit_each : List Task → M R (Unit {0})
  submit_each [] = ret tt
  submit_each (t ∷ r) = ignore_error (submit_job R t) >> submit_each r

  submit_one :
      (t : Task) (w : World R)
      → w.links ≡ []
      → (submit_job R t w).1 ≡ record w {
        db = if is_valid t then store_task R w.now (with_defaults w.now t) w.db else w.db;
      }
  unfolding submit_job
  submit_one t w on = elim (Bool-cases (is_valid t)) [
    | inl e ↦ rw (refused-is_valid t e, e) (ground arith)
    | inr e ↦ let (x, p) = refused-not_valid t e in rw (p, e)
  ]

  submit_each_db :
      (ts : List Task) (w : World R)
      → w.links ≡ []
      → (submit_each ts w).1.db ≡ store_valid R w.now ts w.db
  unfolding submit_each store_valid
  submit_each_db [] w on = refl
  submit_each_db (t ∷ r) w on =
      let rest = submit_each_db r (submit_job R t w).1 in
      let one = submit_one t w on in
      let rest' = rest (ap (λ v. v.links) one ∙ on) in rest' ∙ rw one (ground arith)

  none_stored :
      (now : ℤ) (ts : List Task) (d : R.Db) → valid_count R ts ≡ 0 → store_valid R now ts d ≡ d
  unfolding store_valid
  none_stored now [] d h = refl
  none_stored now (t ∷ r) d h = elim (Bool-cases (is_valid t)) [
    | inl e ↦ ground arith
    | inr e ↦ rw e (none_stored now r d (rw e at h))
  ]

  batch_db :
      (ts : List Task) (w : World R)
      → w.links ≡ []
      → (batch_submit_jobs R ts w).1.db ≡ store_valid R w.now ts w.db
  unfolding batch_submit_jobs store_valid
  batch_db [] w on = refl
  batch_db (t ∷ r) w on = elim (Bool-cases (valid_count R (t ∷ r) == 0)) [
    | inl e ↦
        rw (length-not_zero t r, e)
          (sym (none_stored w.now (t ∷ r) w.db ((==_iff (valid_count R (t ∷ r)) 0).0 e)))
    | inr e ↦ rw (length-not_zero t r, e, on)
  ]

  batch_ok :
      (ts : List Task) (w : World R)
      → w.links ≡ []
      → valid_count R ts ≢ 0
      → (batch_submit_jobs R ts w).0 ≡ ok (valid_count R ts)
  unfolding batch_submit_jobs
  batch_ok [] w on any = absurd (any refl)
  batch_ok (t ∷ r) w on any = elim (Bool-cases (valid_count R (t ∷ r) == 0)) [
    | inl e ↦ absurd (any ((==_iff (valid_count R (t ∷ r)) 0).0 e))
    | inr e ↦ rw (length-not_zero t r, e, on)
  ]

  batch_err :
      (ts : List Task) (w : World R)
      → ts ≢ []
      → valid_count R ts ≡ 0
      → (batch_submit_jobs R ts w).0 ≡ err (message "no valid tasks")
  unfolding batch_submit_jobs
  batch_err [] w any none_valid = absurd (any refl)
  batch_err (t ∷ r) w any none_valid = rw (length-not_zero t r, none_valid)

  -- With the network up, BatchSubmitJobs leaves the database that submitting the tasks one by one
  -- leaves, where the invalid ones are refused; its result is the number of valid tasks, and it is
  -- an error when there are tasks and none is valid.
  pub batch_submit_jobs-each :
      (ts : List Task) (w : World R)
      → w.links ≡ []
      → ((batch_submit_jobs R ts w).1.db ≡ (submit_each ts w).1.db)
        × ((valid_count R ts ≢ 0 → (batch_submit_jobs R ts w).0 ≡ ok (valid_count R ts))
            × (ts ≢ []
                → valid_count R ts ≡ 0
                → (batch_submit_jobs R ts w).0 ≡ err (message "no valid tasks")))
  batch_submit_jobs-each ts w on =
      (batch_db ts w on ∙ sym (submit_each_db ts w on), (batch_ok ts w on, batch_err ts w))
