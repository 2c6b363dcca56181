-- ===== src/Backoff/Bounds.antt =====
-- The range of the retry delay, and where its shift overflows.
use native.Mathlib.Nat.{pow-suc, add-zero, add-suc}
use go_flash_job.Base.{
  ℕ, zero, suc, ◌+◌, ◌-◌, ◌*◌, ◌^◌, ◌≤◌, ◌<◌, ◌≡◌, refl, Bool, true, ◌&&◌, arith, ℤ, pos, negsuc,
  ◌≤ℤ◌, ◌==ℤ◌, +ℤ_parts, eq_of_parts,
}
use go_flash_job.Backoff.{second, millisecond, max_retry_backoff, capped, backoff}

-- The delay without jitter, in whole seconds, while the shift does not overflow.
abbrev pub seconds : ℕ → ℕ
seconds zero = 1
seconds (suc zero) = 2
seconds (suc (suc zero)) = 4
seconds (suc (suc (suc zero))) = 8
seconds (suc (suc (suc (suc zero)))) = 16
seconds (suc (suc (suc (suc (suc n))))) = 30

eq_ℤ : ℤ → ℤ → Bool
eq_ℤ a b = a ==ℤ b

all_below : ℕ → (ℕ → Bool) → Bool
all_below zero p = true
all_below (suc n) p = p n && all_below n p

all_below_sound : (n : ℕ) (p : ℕ → Bool) (k : ℕ) → all_below n p ≡ true → k < n → p k ≡ true
unfolding all_below
all_below_sound zero p k h lt = absurd (omega arith)
all_below_sound (suc n) p k h lt = ground (arith, all_below_sound n p k)

capped_table : all_below 34 (λ k. eq_ℤ (capped k) (pos (seconds k * second))) ≡ true
unfolding all_below capped eq_ℤ
capped_table = refl

capped-seconds : (k : ℕ) → k < 34 → capped k ≡ pos (seconds k * second)
unfolding eq_ℤ
capped-seconds k h =
    let e = all_below_sound 34 (λ k. eq_ℤ (capped k) (pos (seconds k * second))) k capped_table h in
    eq_of_parts (capped k) (pos (seconds k * second)) (ground arith)

-- From the first to the 34th retry the delay is 1, 2, 4, 8, 16 and then 30 seconds, and the jitter.
pub backoff-seconds :
    (k jitter : ℕ)
    → k < 34
    → backoff (pos (suc k)) jitter ≡ pos (seconds k * second + jitter * millisecond)
unfolding backoff
backoff-seconds k jitter h = rw (capped-seconds k h) (ground arith)

pow-add : (a b : ℕ) → 2 ^ (a + b) ≡ 2 ^ a * 2 ^ b
pow-add a zero = rw add-zero (omega arith)
pow-add a (suc b) = rw (add-suc, pow-suc, pow-suc, pow-add a b) (grind arith)

capped-overflow : (n : ℕ) → 55 ≤ n → capped n ≡ pos 0
unfolding capped
capped-overflow n h =
    let e : second * 2 ^ n ≡ 1953125 * 2 ^ 64 * 2 ^ (n - 55) =
      let split : 55 + (n - 55) ≡ n = omega arith in
      rw (← split) (rw (pow-add 55 (n - 55)) (rw split (omega arith))) in
    rw e (ground arith)

-- From the 56th retry on the shift has no bit left: the delay is the jitter alone.
pub backoff_overflow :
    (n jitter : ℕ) → 55 ≤ n → backoff (pos (suc n)) jitter ≡ pos (jitter * millisecond)
unfolding backoff
backoff_overflow n jitter h = rw (capped-overflow n h) (ground arith)

capped_le : (n : ℕ) → capped n ≤ℤ pos max_retry_backoff
unfolding capped
capped_le n = ground arith

-- No delay is longer than 30 seconds and the jitter.
pub backoff_le :
    (retry : ℤ) (jitter : ℕ)
    → backoff retry jitter ≤ℤ pos (max_retry_backoff + jitter * millisecond)
unfolding backoff
backoff_le (negsuc n) jitter = omega arith
backoff_le (pos zero) jitter = omega arith
backoff_le (pos (suc n)) jitter =
    omega (arith, capped_le n, +ℤ_parts (capped n) (pos (jitter * millisecond)))
