-- ===== src/Connect.antt =====
-- How the programs connect: InitRedis of pkg/database/redis.go, InitKafka of pkg/mq/kafka.go,
-- InitRabbitMQ and the ChannelPool of pkg/mq/rabbitmq.go. Whether a call of the client libraries
-- works is a parameter. A channel is the number of the call that opened it.
pub mod Retry
pub mod Channels
use go_flash_job.Base.{
  ℕ, zero, suc, ◌+◌, ◌-◌, ◌*◌, ◌/◌, ◌%◌, ◌^◌, ◌≤◌, ◌<◌, ◌≡◌, refl, sym, ap, ◌∙◌, ◌≢◌, ◌↔◌, ◌⊎◌, inl,
  inr, Bool, true, false, not, ◌&&◌, ◌||◌, Option, none, some, List, [], ◌∷◌, ◌++◌, map, Mem, Perm,
  arith, ltb, leb, ◌==◌, if◌then◌else◌, Bool-cases, Option-cases, length, get_or, set, take,
  length-append, length-set, length-perm, ℤ, pos, negsuc, pos_part, neg_part, ◌+ℤ◌, ◌-ℤ◌, ◌≤ℤ◌,
  ltb_ℤ, leb_ℤ, ◌==ℤ◌, +ℤ_parts, eq_of_parts, count, count-append, count-length, count-le,
  count-perm, one_if, ltb→lt, lt→ltb, leb→le, ==_iff,
}
use go_flash_job.Backoff.{retry_delay}

abbrev pub max_init_attempts : ℕ
max_init_attempts = 8

-- The loop that the three have in common, with the rounds that are left and the number of the
-- attempt: the attempt that worked, if one did, and the nanoseconds spent in time.Sleep. The
-- delay of kafka.go and rabbitmq.go is the one of retryDelay, written out.
unfoldable pub attempts : (ℕ → Bool) → ℕ → ℕ → Option ℕ × ℕ
unfolding retry_delay
attempts dial zero attempt = (none, 0)
attempts dial (suc rounds) attempt =
    let later = attempts dial rounds (suc attempt) in
    if dial attempt then (some attempt, 0) else (later.0, retry_delay attempt + later.1)

-- InitRedis and InitKafka: `none` is log.Fatalf.
unfoldable pub init_redis : (ℕ → Bool) → Option ℕ × ℕ
unfolding attempts
init_redis ping = attempts ping max_init_attempts 1

unfoldable pub init_kafka : (ℕ → Bool) → Option ℕ × ℕ
unfolding attempts
init_kafka new_producer = attempts new_producer max_init_attempts 1

-- ChannelPool
pub record ChannelPool : Type 0 where
  pub chans : List ℕ
  pub idx : ℕ
  pub size : ℕ

-- The loop of NewChannelPool: it opens `left` channels, the next by call `n`.
unfoldable pub open_channels : (ℕ → Bool) → ℕ → ℕ → Option (List ℕ)
open_channels opens zero n = some []
open_channels opens (suc left) n =
    let later = open_channels opens left (suc n) in
    if opens n then elim later [ none ↦ none | some r ↦ some (n ∷ r) ] else none

unfoldable pub new_channel_pool : (ℕ → Bool) → ℕ → ℕ → Option ChannelPool
unfolding open_channels
new_channel_pool opens size n = elim (open_channels opens size n) [
  | none ↦ none
  | some chans ↦ some (record { chans = chans; idx = 0; size = size })
]

-- Get; an empty pool panics, which is `none`. The index does not reach the end of int.
unfoldable pub get : ChannelPool → Option (ℕ × ChannelPool)
get p =
    if length p.chans == 0
    then none
    else some (get_or p.chans (p.idx % length p.chans) 0, record p { idx = suc p.idx })

-- What InitRabbitMQ leaves in RabbitChannel and publisherPool.
pub record RabbitMq : Type 0 where
  pub rabbit_channel : ℕ
  pub publisher_pool : ChannelPool

abbrev pub publishers : ℕ
publishers = 4

-- InitRabbitMQ: `none` is log.Fatalf. Channel 0 is the consumer's.
unfoldable pub init_rabbit_mq : (ℕ → Bool) → (ℕ → Bool) → Bool → Option RabbitMq
unfolding attempts new_channel_pool
init_rabbit_mq dial opens declares = elim (attempts dial max_init_attempts 1).0 [
  | none ↦ none
  | some attempt ↦
      if opens 0 && declares
      then elim (new_channel_pool opens publishers 1) [
        | none ↦ none
        | some pool ↦ some (record { rabbit_channel = 0; publisher_pool = pool })
      ]
      else none
]

-- GetPublishChannel: without a pool, the consumer's channel.
unfoldable pub get_publish_channel : ℕ → Option ChannelPool → Option (ℕ × Option ChannelPool)
unfolding get
get_publish_channel consumer none = some (consumer, none)
get_publish_channel consumer (some pool) = elim (get pool) [
  | none ↦ none
  | some (c, q) ↦ some (c, some q)
]
