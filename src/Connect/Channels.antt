-- ===== src/Connect/Channels.antt =====
-- Which channels the pool of publishers gives out.
use mathlib.Core.Path.{ap₂}
use native.Mathlib.Nat.{mod-lt, add-mod_right}
use go_flash_job.Base.{
  ℕ, zero, suc, ◌+◌, ◌%◌, ◌<◌, ◌≡◌, refl, ap, ◌∙◌, ◌≢◌, inl, inr, Bool, false, some, List, [], ◌∷◌,
  arith, ◌==◌, Option-cases, length, get_or,
}
use go_flash_job.Connect.{
  ChannelPool, open_channels, new_channel_pool, get, RabbitMq, publishers, init_rabbit_mq,
}

-- The pool after `n` more calls of Get, by any goroutines.
abbrev pub after_gets : ℕ → ChannelPool → ChannelPool
after_gets n p = record p { idx = p.idx + n }

-- The numbers from `n` on.
abbrev from : ℕ → ℕ → List ℕ
from zero n = []
from (suc left) n = n ∷ from left (suc n)

length-from : (left n : ℕ) → length (from left n) ≡ left
length-from zero n = refl
length-from (suc left) n = ap suc (length-from left (suc n))

get_or-from : (left n i : ℕ) → i < left → get_or (from left n) i 0 ≡ n + i
get_or-from zero n i h = absurd (omega arith)
get_or-from (suc left) n zero h = omega arith
get_or-from (suc left) n (suc i) h = omega (arith, get_or-from left (suc n) i (omega arith))

open_channels-from :
    (opens : ℕ → Bool) (left n : ℕ) (chans : List ℕ)
    → open_channels opens left n ≡ some chans
    → chans ≡ from left n
unfolding open_channels
open_channels-from opens zero n chans h = ground arith
open_channels-from opens (suc left) n chans h =
    elim (Option-cases (open_channels opens left (suc n))) [
      | inl e ↦ absurd (ground (arith, e))
      | inr (r, e) ↦ ground (arith, e, open_channels-from opens left (suc n) r e)
    ]

-- The channel of the k-th call of Get, from 0, on the publishers of InitRabbitMQ.
abbrev pub publisher : ℕ → ℕ
publisher k = 1 + k % publishers

get-publisher :
    (k : ℕ) (p : ChannelPool)
    → p.chans ≡ from publishers 1
    → p.idx ≡ k
    → get p ≡ some (publisher k, record p { idx = suc k })
unfolding get
get-publisher k p chans idx =
    rw (nonempty) (ap some (ap₂ (λ c i. (c, record p { idx = suc i })) given idx))
  where
    nonempty : (length p.chans == 0) ≡ false
    nonempty = rw chans refl

    given : get_or p.chans (p.idx % length p.chans) 0 ≡ publisher k
    given = rw (chans, idx) (get_or-from publishers 1 (k % publishers) (mod-lt k (omega arith)))

init_rabbit_mq_parts :
    (dial opens : ℕ → Bool) (declares : Bool) (r : RabbitMq)
    → init_rabbit_mq dial opens declares ≡ some r
    → (r.rabbit_channel ≡ 0)
      × (r.publisher_pool.chans ≡ from publishers 1)
      × (r.publisher_pool.idx ≡ 0)
unfolding init_rabbit_mq new_channel_pool
init_rabbit_mq_parts dial opens declares r h =
    elim (Option-cases (open_channels opens publishers 1)) [
      | inl e ↦ absurd (ground (arith, e))
      | inr (chans, e) ↦ ground (arith, e, open_channels-from opens publishers 1 chans e)
    ]

-- When InitRabbitMQ comes to an end, Get never fails: its k-th call gives channel 1 + k mod 4 of
-- the four publishers, never channel 0 of the consumer, and call k + 4 gives the channel of call
-- k again, although nothing has been given back.
pub init_rabbit_mq-publishers :
    (dial opens : ℕ → Bool) (declares : Bool) (r : RabbitMq) (k : ℕ)
    → init_rabbit_mq dial opens declares ≡ some r
    → (r.rabbit_channel ≡ 0)
      × (get (after_gets k r.publisher_pool)
          ≡ some (publisher k, after_gets (suc k) r.publisher_pool))
      × (publisher k ≢ r.rabbit_channel)
      × (publisher (k + publishers) ≡ publisher k)
unfolding init_rabbit_mq new_channel_pool
init_rabbit_mq-publishers dial opens declares r k h =
    let (consumer, chans, idx) = init_rabbit_mq_parts dial opens declares r h in
    let next : suc k ≡ r.publisher_pool.idx + suc k = omega (arith, idx) in
    let at : r.publisher_pool.idx + k ≡ k = omega (arith, idx) in
    (
      consumer,
      get-publisher k (after_gets k r.publisher_pool) chans at
          ∙ ap (λ i. some (publisher k, record r.publisher_pool { idx = i })) next,
      λ same. absurd (omega (arith, consumer, same)),
      ap (◌+◌ 1) (add-mod_right k publishers),
    )
