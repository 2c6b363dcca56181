-- ===== src/Connect/Retry.antt =====
-- The loop of the connection attempts: it ends, and how long it can take.
use go_flash_job.Base.{
  ℕ, zero, suc, ◌+◌, ◌*◌, ◌≤◌, ◌<◌, ◌≡◌, refl, ap, ◌∙◌, inl, inr, Bool, true, false, Option, none,
  some, arith, Bool-cases,
}
use go_flash_job.Backoff.{second, retry_delay}
use go_flash_job.Connect.{max_init_attempts, attempts, init_redis}

-- The delays after the attempts from `attempt` on, for some rounds.
abbrev pub delays : ℕ → ℕ → ℕ
delays zero attempt = 0
delays (suc rounds) attempt = retry_delay attempt + delays rounds (suc attempt)

abbrev AllFail : (ℕ → Bool) → ℕ → ℕ → Type 0
AllFail dial rounds attempt = (j : ℕ) → j < rounds → dial (attempt + j) ≡ false

-- How the loop ended: at an attempt that worked after others that did not, or after all failed.
abbrev pub IsFirst : (ℕ → Bool) → ℕ → ℕ → Option ℕ × ℕ → Type 0
IsFirst dial rounds attempt (none, slept) =
    AllFail dial rounds attempt × (slept ≡ delays rounds attempt)
IsFirst dial rounds attempt (some k, slept) =
    (n : ℕ) × (k ≡ attempt + n)
    × (n < rounds)
    × (dial k ≡ true)
    × AllFail dial n attempt
    × (slept ≡ delays n attempt)

AllFail-suc :
    (dial : ℕ → Bool) (n attempt : ℕ)
    → dial attempt ≡ false
    → AllFail dial n (suc attempt)
    → AllFail dial (suc n) attempt
AllFail-suc dial n attempt fails rest zero lt = ap dial (omega arith) ∙ fails
AllFail-suc dial n attempt fails rest (suc j) lt = ap dial (omega arith) ∙ rest j (omega arith)

failed-IsFirst :
    (dial : ℕ → Bool) (rounds attempt : ℕ) (r : Option ℕ × ℕ)
    → dial attempt ≡ false
    → IsFirst dial rounds (suc attempt) r
    → IsFirst dial (suc rounds) attempt (r.0, retry_delay attempt + r.1)
failed-IsFirst dial rounds attempt (none, slept) fails (all, time) =
    (AllFail-suc dial rounds attempt fails all, ap (◌+◌ (retry_delay attempt)) time)
failed-IsFirst dial rounds attempt (some k, slept) fails (n, at, lt, works, all, time) = (
  suc n,
  omega arith,
  omega arith,
  works,
  AllFail-suc dial n attempt fails all,
  ap (◌+◌ (retry_delay attempt)) time,
)

attempts-IsFirst :
    (dial : ℕ → Bool) (rounds attempt : ℕ)
    → IsFirst dial rounds attempt (attempts dial rounds attempt)
unfolding attempts
attempts-IsFirst dial zero attempt = (λ j lt. absurd (omega arith), refl)
attempts-IsFirst dial (suc rounds) attempt = elim (Bool-cases (dial attempt)) [
  | inl works ↦ rw works (0, omega arith, omega arith, works, λ j lt. absurd (omega arith), refl)
  | inr fails ↦ rw fails (
      failed-IsFirst dial rounds attempt (attempts dial rounds (suc attempt)) fails
        (attempts-IsFirst dial rounds (suc attempt)))
]

delays_mono : (n m attempt : ℕ) → n ≤ m → delays n attempt ≤ delays m attempt
delays_mono zero m attempt le = omega arith
delays_mono (suc n) zero attempt le = absurd (omega arith)
delays_mono (suc n) (suc m) attempt le = omega (arith, delays_mono n m (suc attempt) (omega arith))

all_delays : delays max_init_attempts 1 ≡ 55 * second
unfolding retry_delay
all_delays = refl

-- InitRedis ends after the first attempt of eight that works, or stops the program when all eight
-- fail; it has slept the delays of the attempts that failed, 1, 2, 4, 8 and then 10 seconds each,
-- and never more than 55 seconds.
pub init_redis-ends :
    (ping : ℕ → Bool)
    → IsFirst ping max_init_attempts 1 (init_redis ping) × ((init_redis ping).1 ≤ 55 * second)
unfolding init_redis
init_redis-ends ping = (first, at_most (init_redis ping) first)
  where
    first : IsFirst ping max_init_attempts 1 (init_redis ping)
    first = attempts-IsFirst ping max_init_attempts 1

    at_most : (r : Option ℕ × ℕ) → IsFirst ping max_init_attempts 1 r → r.1 ≤ 55 * second
    at_most (none, slept) (all, time) = omega (arith, time, all_delays)
    at_most (some k, slept) (n, is, lt, works, all, time) =
        omega (arith, time, all_delays, delays_mono n max_init_attempts 1 (omega arith))
