-- ===== src/Api/Submit.antt =====
-- What the submitting handlers let through.
use Prim.Native.String.{String}
use text.Mathlib.Text.{◌==◌ as str_eq}
use go_flash_job.Base.{
  ℕ, zero, suc, ◌+◌, ◌≤◌, ◌<◌, ◌≡◌, refl, ap, ◌∙◌, ◌⊎◌, inl, inr, Bool, true, false, not, ◌&&◌,
  none, some, List, [], ◌∷◌, arith, ltb, ◌==◌, Bool-cases, Option-cases, length, count, ltb→lt,
  lt→ltb,
}
use go_flash_job.Model.{Task}
use go_flash_job.Redis.{Redis}
use go_flash_job.Redis.World.{Res, ok, World}
use go_flash_job.Service.{
  refused, with_defaults, is_valid, submit_job, valid_count, batch_submit_jobs,
}
use go_flash_job.Service.Batch.{submit_each, batch_submit_jobs-each}
use go_flash_job.Api.{
  bound, Reply, bad_request, bad_request_at, submitted_all, is_http, submit_error, task_error,
  first_error, max_batch, submit_answer, batch_answer, handle_submit, handle_batch_submit,
}

-- A task that the handlers accept: an id, and a callback over http or https.
abbrev pub accepts : Task → Bool
accepts t = not (str_eq t.id "") && not (str_eq t.callback_url "") && is_http t.callback_url

abbrev pub all_accepted : List Task → Bool
all_accepted [] = true
all_accepted (t ∷ r) = accepts t && all_accepted r

submit_error-none : (t : Task) → accepts t ≡ true → submit_error t ≡ none
unfolding submit_error
submit_error-none t h = ground arith

submit_error-some : (t : Task) → accepts t ≡ false → (e : String) × (submit_error t ≡ some e)
unfolding submit_error
submit_error-some t h = elim (Option-cases (submit_error t)) [
  | inl none_found ↦ absurd (ground arith)
  | inr found ↦ found
]

accepted-refused : (t : Task) → accepts t ≡ true → refused t ≡ none
unfolding refused
accepted-refused t h = ground arith

accepted-is_valid : (t : Task) → accepts t ≡ true → is_valid t ≡ true
accepted-is_valid t h = ground arith

task_error-none : (t : Task) → accepts t ≡ true → task_error t ≡ none
unfolding task_error
task_error-none t h = ground arith

task_error-some : (t : Task) → accepts t ≡ false → (e : String) × (task_error t ≡ some e)
unfolding task_error
task_error-some t h = elim (Option-cases (task_error t)) [
  | inl none_found ↦ absurd (ground arith)
  | inr found ↦ found
]

first_error-none : (i : ℕ) (ts : List Task) → all_accepted ts ≡ true → first_error i ts ≡ none
unfolding first_error
first_error-none i [] h = refl
first_error-none i (t ∷ r) h =
    rw (first_error, task_error-none t (ground arith)) (first_error-none (suc i) r (ground arith))

-- The refusal names the first task that is not accepted.
abbrev pub IsFirstRefused : List Task → ℕ → Type 0
IsFirstRefused [] i = ⊥
IsFirstRefused (t ∷ r) zero = accepts t ≡ false
IsFirstRefused (t ∷ r) (suc i) = (accepts t ≡ true) × IsFirstRefused r i

first_error-some :
    (i : ℕ) (ts : List Task)
    → all_accepted ts ≡ false
    → (e : String) × (k : ℕ) × (first_error i ts ≡ some (e, i + k)) × IsFirstRefused ts k
unfolding first_error
first_error-some i [] h = absurd cc
first_error-some i (t ∷ r) h = elim (Bool-cases (accepts t)) [
  | inl good ↦
      let (e, k, found, first) = first_error-some (suc i) r (ground arith) in
      (
        e,
        suc k,
        rw (first_error, task_error-none t good) (found ∙ ap (λ j. some (e, j)) (omega arith)),
        (good, first),
      )
  | inr bad ↦
      let (e, found) = task_error-some t bad in
      (e, 0, rw (first_error, found) (ap (λ j. some (e, j)) (omega arith)), bad)
]

not_empty : (ts : List Task) → max_batch < length ts → (length ts == 0) ≡ false
not_empty ts h = ground arith

module _ (R : Redis) where
  valid_count-all : (ts : List Task) → all_accepted ts ≡ true → valid_count R ts ≡ length ts
  valid_count-all [] h = refl
  valid_count-all (t ∷ r) h =
      rw (accepted-is_valid t (ground arith)) (ap suc (valid_count-all r (ground arith)))

  -- HandleSubmit, on any network: a task that is not accepted gets a 400 and changes nothing; an
  -- accepted one goes to SubmitJob, whose own checks then pass, and the answer is a 200 with
  -- the task as it was stored exactly when SubmitJob succeeds, and a 500 otherwise.
  pub handle_submit-answers :
      (t : Task) (w : World R)
      → (accepts t ≡ false → (e : String) × (handle_submit R (bound t) w ≡ (ok (bad_request e), w)))
        × (accepts t ≡ true
            → (refused t ≡ none)
              × (handle_submit R (bound t) w ≡ (
                ok (submit_answer R (with_defaults w.now t) (submit_job R t w).0),
                (submit_job R t w).1,
              )))
  unfolding handle_submit
  handle_submit-answers t w = (
    λ bad. let (e, found) = submit_error-some t bad in (e, rw (handle_submit, found) refl),
    λ good. (accepted-refused t good, rw (handle_submit, submit_error-none t good) refl),
  )

  batch_refused-size :
      (ts : List Task) (w : World R)
      → (ts ≡ []) ⊎ (max_batch < length ts)
      → (e : String) × (handle_batch_submit R (bound ts) w ≡ (ok (bad_request e), w))
  unfolding handle_batch_submit
  batch_refused-size ts w (inl none_given) = ("tasks is empty", rw none_given refl)
  batch_refused-size ts w (inr many) = (
    "at most 10000 tasks at a time",
    rw (not_empty ts many, lt→ltb max_batch (length ts) many) refl,
  )

  module _ (ts : List Task) (w : World R) (some_task : 0 < length ts)
      (few : length ts ≤ max_batch) where
    in_size : ((length ts == 0) ≡ false) × (ltb max_batch (length ts) ≡ false)
    in_size = (ground arith, ground arith)

    batch_refused-task :
        all_accepted ts ≡ false
        → (e : String) × (k : ℕ) × (handle_batch_submit R (bound ts) w
            ≡ (ok (bad_request_at e k), w))
          × IsFirstRefused ts k
    unfolding handle_batch_submit
    batch_refused-task bad =
        let (e, k, found, first) = first_error-some 0 ts bad in
        (
          e,
          k,
          rw (handle_batch_submit, in_size.0, in_size.1, found)
              (ap (λ j. (ok (bad_request_at e j), w)) (omega arith)),
          first,
        )

    batch_taken :
        all_accepted ts ≡ true
        → handle_batch_submit R (bound ts) w
          ≡ (ok (batch_answer R (batch_submit_jobs R ts w).0), (batch_submit_jobs R ts w).1)
    unfolding handle_batch_submit
    batch_taken good = ground (arith, in_size.0, in_size.1, first_error-none 0 ts good)

    batch_stored :
        all_accepted ts ≡ true
        → w.links ≡ []
        → ((handle_batch_submit R (bound ts) w).0 ≡ ok (submitted_all (length ts)))
          × ((handle_batch_submit R (bound ts) w).1.db ≡ (submit_each R ts w).1.db)
    batch_stored good on =
        let (stored, (counts, no_task)) = batch_submit_jobs-each R ts w on in
        let all = valid_count-all ts good in
        (
          ap (λ (r : Res Reply × World R). r.0) (batch_taken good)
              ∙ rw (counts (λ none_valid. absurd (omega (arith, all, none_valid))))
                  (ap (λ n. ok (submitted_all n)) all),
          ap (λ (r : Res Reply × World R). r.1.db) (batch_taken good) ∙ stored,
        )

  -- HandleBatchSubmit takes all or nothing, unlike BatchSubmitJobs, which skips what is not valid.
  -- With the network up, a batch of no task, or of more than 10000, gets a 400, and so does one
  -- with a task that is not accepted, with the index of the first; nothing is stored then.
  -- Otherwise
  -- (one to 10000 tasks, all accepted) the answer is the number of the tasks, and the database is the one that submitting
  -- them one by one leaves.
  pub handle_batch_submit-all :
      (ts : List Task) (w : World R)
      → w.links ≡ []
      → let r = handle_batch_submit R (bound ts) w in
        (((ts ≡ []) ⊎ (10000 < length ts)) × ((e : String) × (r ≡ (ok (bad_request e), w))))
        ⊎ ((0 < length ts)
            × (length ts ≤ 10000)
            × (all_accepted ts ≡ false)
            × ((e : String) × (k : ℕ) × (r ≡ (ok (bad_request_at e k), w)) × IsFirstRefused ts k))
        ⊎ ((0 < length ts)
            × (length ts ≤ 10000)
            × (all_accepted ts ≡ true)
            × (r.0 ≡ ok (submitted_all (length ts)))
            × (r.1.db ≡ (submit_each R ts w).1.db))
  handle_batch_submit-all [] w on = inl (inl refl, batch_refused-size [] w (inl refl))
  handle_batch_submit-all (t ∷ r) w on = elim (Bool-cases (ltb max_batch (length (t ∷ r)))) [
    | inl many ↦
        let h = ltb→lt max_batch (length (t ∷ r)) many in
        inl (inr h, batch_refused-size (t ∷ r) w (inr h))
    | inr few ↦ elim (Bool-cases (all_accepted (t ∷ r))) [
      | inl good ↦
          let (count, stored) = batch_stored (t ∷ r) w (omega arith) (ground arith) good on in
          inr (inr (omega arith, ground arith, good, count, stored))
      | inr bad ↦
          let refusal = batch_refused-task (t ∷ r) w (omega arith) (ground arith) bad in
          inr (inl (omega arith, ground arith, bad, refusal))
    ]
  ]
