-- ===== src/Tests/Startup.antt =====
-- Connections, the worker pool and the HTTP handlers on concrete requests.
use Prim.Native.String.{String}
use text.Mathlib.Text.{◌==◌ as str_eq}
use text.Mathlib.TextEquality.{eq_iff}
use go_flash_job.Base.{
  ℕ, zero, suc, ◌+◌, ◌*◌, ◌≤◌, ◌<◌, ◌≡◌, refl, ap, sym, ◌∙◌, ◌≢◌, ◌⊎◌, inl, inr, Bool, true, false,
  Option, none, some, List, [], ◌∷◌, map, arith, ◌==◌, if◌then◌else◌, Bool-cases, length, ℤ, pos,
  negsuc, count,
}
use go_flash_job.Redis.{find, ZKey, HKey, Value, plain, int}
use go_flash_job.Redis.World.{ok, World}
use go_flash_job.Redis.Memory.{memory, empty_db, firsts, find-firsts}
use go_flash_job.Backoff.{second, retry_delay}
use go_flash_job.Connect.{
  attempts, init_redis, open_channels, new_channel_pool, get, RabbitMq, publishers, init_rabbit_mq,
}
use go_flash_job.Connect.Channels.{after_gets, publisher, init_rabbit_mq-publishers}
use go_flash_job.Worker.{
  new_pool, submit, workers, receiving, returned, Consumer, start_consumer, takes, delivers, here,
  next,
}
use go_flash_job.Worker.Limits.{start_consumer-limits}
use go_flash_job.Service.Batch.{submit_each}
use go_flash_job.Fsm.{save_dead_task}
use go_flash_job.Api.{bound, bad_request, bad_request_at, submitted_all, handle_batch_submit}
use go_flash_job.Api.Submit.{all_accepted, IsFirstRefused, handle_batch_submit-all}
use go_flash_job.Api.Dead.{
  Fields, lookup, detail, list_dead_jobs, DeadItem, IsIn, save_dead_task-listed, is_in, dead_fields,
}
use go_flash_job.Api.Limiter.{
  RateLimiter, new_rate_limiter, Arrival, request, answers, only_requests, only_answers,
  answers-apart,
}
use go_flash_job.Tests.Samples.{task_a, task_b, at}

-- The third attempt works.
abbrev third : ℕ → Bool
third n = n == 3

three_seconds : init_redis third ≡ (some 3, 3 * second)
unfolding init_redis attempts retry_delay
three_seconds = refl

abbrev always : ℕ → Bool
always n = true

abbrev connected : RabbitMq
connected = record {
  rabbit_channel = 0;
  publisher_pool = record { chans = 1 ∷ 2 ∷ 3 ∷ 4 ∷ []; idx = 0; size = 4 };
}

init_rabbit_mq-publishers_example :
    (connected.rabbit_channel ≡ 0)
    × (get (after_gets 5 connected.publisher_pool)
        ≡ some (publisher 5, after_gets 6 connected.publisher_pool))
    × (publisher 5 ≢ connected.rabbit_channel)
    × (publisher (5 + publishers) ≡ publisher 5)
unfolding init_rabbit_mq attempts new_channel_pool open_channels
init_rabbit_mq-publishers_example = init_rabbit_mq-publishers always always true connected 5 refl

abbrev listening : Consumer
listening = record { phase = receiving; pool = new_pool workers; submitted = [] }

abbrev busy : Consumer
busy = record listening {
  pool = record {
    max_workers = 50;
    semaphore = 1;
    wg = 1;
    running = 7 ∷ [];
    leaving = [];
    finished = [];
  };
  submitted = 7 ∷ [];
}

start_consumer-limits_example :
    (length busy.pool.running ≤ 50)
    × ((p : ℕ → Bool)
        → count p busy.submitted
          ≡ count p busy.pool.running + count p busy.pool.leaving + count p busy.pool.finished)
    × ((busy.phase ≢ returned) ⊎ (length busy.pool.running + length busy.pool.leaving ≡ 0))
unfolding start_consumer submit
start_consumer-limits_example =
    start_consumer-limits true true listening busy refl
      (next (next here (takes 7 refl)) (delivers 7 busy.pool refl refl))

abbrev empty_world : World memory
unfolding memory empty_db
empty_world = at empty_db []

handle_batch_submit-all_example :
    let ts = task_a ∷ task_b ∷ [] in
    let r = handle_batch_submit memory (bound ts) empty_world in
    (((ts ≡ []) ⊎ (10000 < length ts)) × ((e : String) × (r ≡ (ok (bad_request e), empty_world))))
    ⊎ ((0 < length ts)
        × (length ts ≤ 10000)
        × (all_accepted ts ≡ false)
        × ((e : String) × (k : ℕ) × (r ≡ (ok (bad_request_at e k), empty_world))
            × IsFirstRefused ts k))
    ⊎ ((0 < length ts)
        × (length ts ≤ 10000)
        × (all_accepted ts ≡ true)
        × (r.0 ≡ ok (submitted_all (length ts)))
        × (r.1.db ≡ (submit_each memory ts empty_world).1.db))
unfolding empty_world
handle_batch_submit-all_example =
    handle_batch_submit-all memory (task_a ∷ task_b ∷ []) empty_world refl

-- A bucket that holds so many tokens and is never filled up.
abbrev take_token : ℤ → ℕ → Bool × ℕ
take_token now zero = (false, 0)
take_token now (suc n) = (true, n)

abbrev requests : List (Arrival ℕ (λ rps burst. burst) take_token)
requests = request (pos 1) "10.0.0.1" ∷ request (pos 1) "10.0.0.2" ∷ request (pos 2) "10.0.0.1" ∷ []

abbrev one_each : RateLimiter ℕ (λ rps burst. burst) take_token
one_each = new_rate_limiter ℕ (λ rps burst. burst) take_token 1 1

answers-apart_example :
    only_answers ℕ
      (λ rps burst. burst)
      take_token
      "10.0.0.1"
      (answers ℕ (λ rps burst. burst) take_token requests one_each)
    ≡ answers ℕ
        (λ rps burst. burst)
        take_token
        (only_requests ℕ (λ rps burst. burst) take_token "10.0.0.1" requests)
        one_each
answers-apart_example = answers-apart ℕ (λ rps burst. burst) take_token "10.0.0.1" requests one_each

-- HGETALL of the server in memory, of the fields of a dead task.
abbrev collect : (String → Option Value) → List String → Fields
collect h [] = []
collect h (f ∷ r) = elim (h f) [ none ↦ collect h r | some v ↦ (f, v) ∷ collect h r ]

lookup-collect :
    (h : String → Option Value) (f : String) (names : List String)
    → lookup f (collect h names) ≡ (if is_in f names then h f else none)
lookup-collect h f [] = refl
lookup-collect h f (g ∷ r) = elim (Bool-cases (str_eq g f)) [
  | inl same ↦ ground (arith, same, ap h ((eq_iff g f).0 same), lookup-collect h f r)
  | inr differ ↦ ground (arith, lookup-collect h f r, differ)
]

abbrev hgetall : memory.Db → HKey → Fields
unfolding memory
hgetall d k = collect (memory.hget d k) dead_fields

hgetall-hget :
    (d : memory.Db) (k : HKey) (f : String)
    → is_in f dead_fields ≡ true
    → lookup f (hgetall d k) ≡ memory.hget d k f
unfolding hgetall memory
hgetall-hget d k f h = lookup-collect (memory.hget d k) f dead_fields ∙ rw h refl

-- The members of the queue, whatever the range is.
abbrev dead_members : memory.Db → ZKey → ℤ → ℤ → List String
unfolding memory
dead_members d k start stop = map (λ x. x.0) (firsts (d.scores k))

find-IsIn :
    (l : List (String × ℤ)) (m : String) (s : ℤ) → find m l ≡ some s → IsIn m (map (λ x. x.0) l)
find-IsIn [] m s h = absurd cc
find-IsIn ((j, u) ∷ r) m s h = elim (Bool-cases (str_eq j m)) [
  | inl same ↦ inl (sym ((eq_iff j m).0 same))
  | inr other ↦ inr (find-IsIn r m s (rw other at h))
]

dead_members-all :
    (d : memory.Db) (k : ZKey) (m : String) (s : ℤ)
    → memory.zscore d k m ≡ some s
    → IsIn m (dead_members d k (pos 0) (negsuc 0))
unfolding memory
dead_members-all d k m s h = find-IsIn (firsts (d.scores k)) m s (find-firsts m (d.scores k) ∙ h)

save_dead_task-listed_example :
    let w' = (save_dead_task memory task_a "timeout" empty_world).1 in
    let fs = hgetall w'.db (HKey.dead_detail "a") in
    ((items : List DeadItem) × ((list_dead_jobs memory dead_members hgetall (pos 0) (negsuc 0) w').0
        ≡ ok items)
      × IsIn (detail (("id", plain "a") ∷ fs)) items)
    × (lookup "name" fs ≡ some (plain task_a.name))
    × (lookup "callback_url" fs ≡ some (plain task_a.callback_url))
    × (lookup "retry_count" fs ≡ some (int task_a.retry_count))
    × (lookup "error" fs ≡ some (plain "timeout"))
    × (lookup "dead_at" fs ≡ some (int empty_world.now))
unfolding empty_world
save_dead_task-listed_example =
    save_dead_task-listed memory dead_members hgetall hgetall-hget dead_members-all task_a "timeout"
      empty_world refl
