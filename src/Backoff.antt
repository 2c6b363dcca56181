-- ===== src/Backoff.antt =====
-- The delay before a retry: `backoff` of scheduler/internal/core/scheduler.go,
-- `backoffDuration` of executor/internal/client/consumer.go (the same code twice), and
-- `retryDelay` of pkg/database/redis.go. A time.Duration is an int64 of nanoseconds, and the
-- shift wraps as int64 does. `jitter` is rand.Intn(500).
pub mod Bounds
use go_flash_job.Base.{
  ℕ, zero, suc, ◌-◌, ◌*◌, ◌/◌, ◌%◌, ◌^◌, ltb, if◌then◌else◌, ℤ, pos, negsuc, ◌+ℤ◌, ltb_ℤ,
}

abbrev pub second : ℕ
second = 1000000000

abbrev pub millisecond : ℕ
millisecond = 1000000

-- The int64 with the bits of `n` modulo 2^64.
unfoldable pub int64 : ℕ → ℤ
int64 n = let m = n % 2 ^ 64 in if ltb m (2 ^ 63) then pos m else negsuc (2 ^ 64 - 1 - m)

abbrev pub max_retry_backoff : ℕ
max_retry_backoff = 30 * second

-- `time.Second << (retry - 1)`, cut down to maxRetryBackoff.
unfoldable pub capped : ℕ → ℤ
unfolding int64
capped shift =
    let backoff = int64 (second * 2 ^ shift) in
    if ltb_ℤ (pos max_retry_backoff) backoff then pos max_retry_backoff else backoff

-- backoff and backoffDuration
unfoldable pub backoff : ℤ → ℕ → ℤ
unfolding capped ◌+ℤ◌
backoff (negsuc n) jitter = pos 0
backoff (pos zero) jitter = pos 0
backoff (pos (suc n)) jitter = capped n +ℤ pos (jitter * millisecond)

-- `time.Now().Add(d).Unix()`, when the clock shows second `now` and `frac` nanoseconds of it.
unfoldable pub after : ℤ → ℕ → ℤ → ℤ
unfolding ◌+ℤ◌
after now frac d = elim (d +ℤ pos frac) [
  | pos n ↦ now +ℤ pos (n / second)
  | negsuc n ↦ now +ℤ negsuc (n / second)
]

-- retryDelay, for attempts from 1 to 8.
unfoldable pub retry_delay : ℕ → ℕ
retry_delay attempt =
    let d = second * 2 ^ (attempt - 1) in if ltb (10 * second) d then 10 * second else d
