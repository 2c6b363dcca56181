-- ===== src/Worker.antt =====
-- executor/internal/worker/pool.go, and StartConsumer of executor/internal/client/consumer.go,
-- which feeds it: the goroutines as steps on one state. A task is its number.
pub mod Limits
use go_flash_job.Base.{
  ℕ, zero, suc, ◌+◌, ◌-◌, ◌*◌, ◌/◌, ◌%◌, ◌^◌, ◌≤◌, ◌<◌, ◌≡◌, refl, sym, ap, ◌∙◌, ◌≢◌, ◌↔◌, ◌⊎◌, inl,
  inr, Bool, true, false, not, ◌&&◌, ◌||◌, Option, none, some, List, [], ◌∷◌, ◌++◌, map, Mem, Perm,
  arith, ltb, leb, ◌==◌, if◌then◌else◌, Bool-cases, Option-cases, length, get_or, set, take,
  length-append, length-set, length-perm, ℤ, pos, negsuc, pos_part, neg_part, ◌+ℤ◌, ◌-ℤ◌, ◌≤ℤ◌,
  ltb_ℤ, leb_ℤ, ◌==ℤ◌, +ℤ_parts, eq_of_parts, count, count-append, count-length, count-le,
  count-perm, one_if, ltb→lt, lt→ltb, leb→le, ==_iff,
}

-- Pool: `semaphore` is the number of tokens in the channel, `wg` the counter of the WaitGroup. The
-- rest is the goroutines: `running` the tasks whose function runs, `leaving` those that have given
-- back the token and not yet called Done, and `finished` those that are over.
pub record Pool : Type 0 where
  pub max_workers : ℕ
  pub semaphore : ℕ
  pub wg : ℕ
  pub running : List ℕ
  pub leaving : List ℕ
  pub finished : List ℕ

-- NewPool
abbrev pub new_pool : ℕ → Pool
new_pool max = record {
  max_workers = max;
  semaphore = 0;
  wg = 0;
  running = [];
  leaving = [];
  finished = [];
}

-- Submit: `none` while the channel is full, where it blocks.
unfoldable pub submit : ℕ → Pool → Option Pool
submit task p =
    if ltb p.semaphore p.max_workers
    then some (record p { semaphore = suc p.semaphore; wg = suc p.wg; running = task ∷ p.running })
    else none

-- The deferred functions of the goroutine, the last one first: the token, then Done.
abbrev pub give_back : List ℕ → ℕ → Pool → Pool
give_back rest task p = record p {
  semaphore = p.semaphore - 1;
  running = rest;
  leaving = task ∷ p.leaving;
}

abbrev pub done : List ℕ → ℕ → Pool → Pool
done rest task p = record p { wg = p.wg - 1; leaving = rest; finished = task ∷ p.finished }

-- Wait returns.
abbrev pub is_idle : Pool → Bool
is_idle p = p.wg == 0

-- The tokens of the pool of StartConsumer, which is also the prefetch count of its channel.
abbrev pub workers : ℕ
workers = 50

-- Where StartConsumer is: in its loop, in Submit with a message that it has taken, waiting for the pool after a cancellation or the end of the
-- deliveries, or returned.
pub data Phase : Type 0 where
  receiving : Phase
  submitting : ℕ → Phase
  waiting returned : Phase

pub record Consumer : Type 0 where
  pub phase : Phase
  pub pool : Pool
  pub submitted : List ℕ

-- StartConsumer up to its loop: `none` is log.Fatalf, when Qos or Consume fails.
unfoldable pub start_consumer : Bool → Bool → Option Consumer
start_consumer qos consume =
    if qos && consume
    then some (record { phase = receiving; pool = new_pool workers; submitted = [] })
    else none

-- A message is taken; Submit gets a token for it; the loop ends; Wait returns; a task ends.
pub data Step (c : Consumer) : Consumer → Type 0 where
  takes : (task : ℕ) → c.phase ≡ receiving → Step c (record c { phase = submitting task })
  delivers :
      (task : ℕ) (p : Pool)
      → c.phase ≡ submitting task
      → submit task c.pool ≡ some p
      → Step c (record c { phase = receiving; pool = p; submitted = task ∷ c.submitted })
  stops : c.phase ≡ receiving → Step c (record c { phase = waiting })
  returns : c.phase ≡ waiting → is_idle c.pool ≡ true → Step c (record c { phase = returned })
  ends :
      (before after : List ℕ) (task : ℕ)
      → c.pool.running ≡ before ++ task ∷ after
      → Step c (record c { pool = give_back (before ++ after) task c.pool })
  leaves :
      (before after : List ℕ) (task : ℕ)
      → c.pool.leaving ≡ before ++ task ∷ after
      → Step c (record c { pool = done (before ++ after) task c.pool })

pub data Reachable (c : Consumer) : Consumer → Type 0 where
  here : Reachable c c
  next : {d e : Consumer} → Reachable c d → Step d e → Reachable c e
