-- ===== src/Worker/Limits.antt =====
-- The pool of the executor: how many tasks run at once, and when Wait returns.
use go_flash_job.Base.{
  ℕ, suc, ◌+◌, ◌≤◌, ◌≡◌, refl, ap, ◌≢◌, ◌⊎◌, inl, inr, Bool, some, List, [], ◌∷◌, ◌++◌, arith,
  length, length-append, count, count-append, one_if,
}
use go_flash_job.Worker.{
  Pool, new_pool, submit, workers, Phase, receiving, submitting, waiting, returned, Consumer,
  start_consumer, Step, takes, delivers, stops, returns, ends, leaves, Reachable, here, next,
}

-- The tokens and the counter tell what the goroutines are doing.
abbrev IsCounted : Consumer → Type 0
IsCounted c =
    (c.pool.semaphore ≡ length c.pool.running)
    × (c.pool.wg ≡ length c.pool.running + length c.pool.leaving)
    × (c.pool.semaphore ≤ c.pool.max_workers)
    × (c.pool.max_workers ≡ workers)

-- The tasks that pass a test, wherever they are in the pool.
abbrev in_pool : (ℕ → Bool) → Pool → ℕ
in_pool p q = count p q.running + count p q.leaving + count p q.finished

-- Each submitted task is in the pool once.
abbrev IsKept : (ℕ → Bool) → Consumer → Type 0
IsKept p c = count p c.submitted ≡ in_pool p c.pool

-- Only a pool with nothing to do lets the consumer return.
abbrev IsQuiet : Consumer → Type 0
IsQuiet c = c.phase ≡ returned → c.pool.wg ≡ 0

taken_length :
    {l : List ℕ} (before after : List ℕ) (task : ℕ)
    → l ≡ before ++ task ∷ after
    → length l ≡ suc (length (before ++ after))
taken_length before after task at = omega (
  arith,
  ap (λ (l : List ℕ). length l) at,
  length-append before (task ∷ after),
  length-append before after,
)

taken_count :
    (p : ℕ → Bool) {l : List ℕ} (before after : List ℕ) (task : ℕ)
    → l ≡ before ++ task ∷ after
    → count p l ≡ one_if (p task) + count p (before ++ after)
taken_count p before after task at =
    omega
      (arith, ap (count p) at, count-append p before (task ∷ after), count-append p before after)

Step-IsCounted : {c d : Consumer} → IsCounted c → Step c d → IsCounted d
unfolding submit
Step-IsCounted {c} (tokens, counter, few, max) (delivers task p is full) = ground arith
Step-IsCounted {c} h (takes task is) = h
Step-IsCounted {c} h (stops is) = h
Step-IsCounted {c} h (returns is idle) = h
Step-IsCounted {c} (tokens, counter, few, max) (ends before after task at) =
    let size = taken_length before after task at in
    (omega (arith, size), omega (arith, size), omega arith, max)
Step-IsCounted {c} (tokens, counter, few, max) (leaves before after task at) =
    let size = taken_length before after task at in (tokens, omega (arith, size), few, max)

Step-IsKept : (p : ℕ → Bool) {c d : Consumer} → IsKept p c → Step c d → IsKept p d
unfolding submit
Step-IsKept p {c} kept (delivers task q is free) = ground arith
Step-IsKept p {c} kept (takes task is) = kept
Step-IsKept p {c} kept (stops is) = kept
Step-IsKept p {c} kept (returns is idle) = kept
Step-IsKept p {c} kept (ends before after task at) =
    omega (arith, kept, taken_count p before after task at)
Step-IsKept p {c} kept (leaves before after task at) =
    omega (arith, kept, taken_count p before after task at)

Step-IsQuiet : {c d : Consumer} → IsCounted c → IsQuiet c → Step c d → IsQuiet d
Step-IsQuiet {c} counted quiet (takes task is) = λ over. absurd cc
Step-IsQuiet {c} counted quiet (delivers task q is free) = λ over. absurd cc
Step-IsQuiet {c} counted quiet (stops is) = λ over. absurd cc
Step-IsQuiet {c} counted quiet (returns is idle) = λ over. ground arith
Step-IsQuiet {c} counted quiet (ends before after task at) = quiet
Step-IsQuiet {c} (tokens, counter, few, max) quiet (leaves before after task at) =
    λ over. absurd (omega (arith, quiet over, counter, taken_length before after task at))

Reachable-IsCounted : {c d : Consumer} → IsCounted c → Reachable c d → IsCounted d
Reachable-IsCounted h here = h
Reachable-IsCounted h (next r step) = Step-IsCounted (Reachable-IsCounted h r) step

Reachable-IsKept : (p : ℕ → Bool) {c d : Consumer} → IsKept p c → Reachable c d → IsKept p d
Reachable-IsKept p h here = h
Reachable-IsKept p h (next r step) = Step-IsKept p (Reachable-IsKept p h r) step

Reachable-IsQuiet : {c d : Consumer} → IsCounted c → IsQuiet c → Reachable c d → IsQuiet d
Reachable-IsQuiet h quiet here = quiet
Reachable-IsQuiet h quiet (next r step) =
    Step-IsQuiet (Reachable-IsCounted h r) (Reachable-IsQuiet h quiet r) step

start_consumer-starts :
    (qos consume : Bool) (c : Consumer)
    → start_consumer qos consume ≡ some c
    → IsCounted c × ((p : ℕ → Bool) → IsKept p c) × IsQuiet c
unfolding start_consumer
start_consumer-starts qos consume c h =
    rw⁻¹ same ((refl, refl, omega arith, refl), λ p. refl, λ over. refl)
  where
    started : Consumer
    started = record { phase = receiving; pool = new_pool workers; submitted = [] }

    same : started ≡ c
    same = ground arith

-- However the goroutines of an executor interleave, at most 50 tasks run at once, each message that
-- got through Submit is one task of the pool, and when StartConsumer has returned no task is left that is
-- not finished.
pub start_consumer-limits :
    (qos consume : Bool) (c d : Consumer)
    → start_consumer qos consume ≡ some c
    → Reachable c d
    → (length d.pool.running ≤ 50)
      × ((p : ℕ → Bool)
          → count p d.submitted
            ≡ count p d.pool.running + count p d.pool.leaving + count p d.pool.finished)
      × ((d.phase ≢ returned) ⊎ (length d.pool.running + length d.pool.leaving ≡ 0))
start_consumer-limits qos consume c d h r =
    let (counted, kept, quiet) = start_consumer-starts qos consume c h in
    let (tokens, counter, few, max) = Reachable-IsCounted counted r in
    (
      omega arith,
      λ p. Reachable-IsKept p (kept p) r,
      at_rest d.phase refl counter (Reachable-IsQuiet counted quiet r),
    )
  where
    at_rest :
        (phase : Phase)
        → d.phase ≡ phase
        → d.pool.wg ≡ length d.pool.running + length d.pool.leaving
        → IsQuiet d
        → (d.phase ≢ returned) ⊎ (length d.pool.running + length d.pool.leaving ≡ 0)
    at_rest receiving e counter quiet = inl (λ over. cc)
    at_rest (submitting task) e counter quiet = inl (λ over. cc)
    at_rest waiting e counter quiet = inl (λ over. cc)
    at_rest returned e counter quiet = inr (omega (arith, counter, quiet e))
