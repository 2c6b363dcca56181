-- ===== src/TaskHeap.antt =====
-- scheduler/internal/core/heap.go: the order of a processor's local queue of tasks.
use Prim.Native.String.{String}
use text.Mathlib.Text.{◌==◌ as str_eq}
use go_flash_job.Base.{
  ℕ, ◌+◌, ◌≤◌, ◌≡◌, inl, inr, Bool, true, false, not, arith, ltb, ◌==◌, if◌then◌else◌, Bool-cases,
  pos, pos_part, neg_part, ◌≤ℤ◌, ltb_ℤ, ◌==ℤ◌,
}
use go_flash_job.Model.{Task, priority_high, priority_medium, priority_low}
use go_flash_job.Heap.{Ordered}

-- priorityMap, with Go's zero value for a priority that is not a key.
pub priority_map : String → ℕ
priority_map p =
    if str_eq p priority_high
    then 3
    else if str_eq p priority_medium
    then 2
    else if str_eq p priority_low
    then 1
    else 0

-- Less
pub less : Task → Task → Bool
less a b =
    if not (a.trigger_time ==ℤ b.trigger_time)
    then ltb_ℤ a.trigger_time b.trigger_time
    else if not (priority_map a.priority == priority_map b.priority)
    then ltb (priority_map b.priority) (priority_map a.priority)
    else ltb_ℤ a.enqueue_at b.enqueue_at

pub less_asym : (a b : Task) → less a b ≡ true → less b a ≡ false
unfolding less
less_asym a b h = ground arith

-- The order on keys, over the numbers that the comparisons read.
abbrev key_less : ℕ → ℕ → ℕ → ℕ → ℕ → ℕ → Bool
key_less t u p q d e = if not (t == u) then ltb t u else if not (p == q) then ltb q p else ltb d e

module _ (a a' b b' c c' p q r d d' e e' f f' : ℕ)
    (h : key_less (b + a') (a + b') q p (e + d') (d + e') ≡ false)
    (k : key_less (c + b') (b + c') r q (f + e') (e + f') ≡ false) where
  key_times : (a + c' ≤ c + a') × (a + b' ≤ b + a') × (b + c' ≤ c + b')
  key_times = (ground arith, ground arith, ground arith)

  key_priorities : a + c' ≡ c + a' → (r ≤ q) × (q ≤ p)
  key_priorities s = let t = key_times in (ground arith, ground arith)

  key_less_trans : key_less (c + a') (a + c') r p (f + d') (d + f') ≡ false
  key_less_trans = elim (Bool-cases ((c + a') == (a + c'))) [
    | inr ne ↦ let t = key_times in ground arith
    | inl eq ↦
        let t = key_times in
        let s = key_priorities (ground arith) in
        elim (Bool-cases (r == p)) [ inr ne ↦ ground arith | inl eq' ↦ ground arith ]
  ]

pub less_trans : (a b c : Task) → less b a ≡ false → less c b ≡ false → less c a ≡ false
unfolding less
less_trans a b c =
    key_less_trans (pos_part a.trigger_time) (neg_part a.trigger_time) (pos_part b.trigger_time)
      (neg_part b.trigger_time) (pos_part c.trigger_time) (neg_part c.trigger_time)
      (priority_map a.priority) (priority_map b.priority) (priority_map c.priority)
      (pos_part a.enqueue_at) (neg_part a.enqueue_at) (pos_part b.enqueue_at)
      (neg_part b.enqueue_at) (pos_part c.enqueue_at) (neg_part c.enqueue_at)

-- A task that is not less than another is not earlier.
pub less-trigger_time : (a b : Task) → less b a ≡ false → a.trigger_time ≤ℤ b.trigger_time
unfolding less
less-trigger_time a b h = ground arith

abbrev pub zero_task : Task
zero_task = record {
  id = "";
  name = "";
  callback_url = "";
  trigger_time = pos 0;
  priority = "";
  retry_count = pos 0;
  max_retry = pos 0;
  timeout = pos 0;
  payload = "";
  enqueue_at = pos 0;
}

unfoldable pub task_order : Ordered Task
unfolding less
task_order = record { zero_value = zero_task; less = less; asym = less_asym; trans = less_trans }
