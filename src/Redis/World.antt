-- ===== src/Redis/World.antt =====
-- The state that a scheduler or an executor acts on, and the calls that it makes: a state monad
-- with errors. Each call of Redis, RabbitMQ or Kafka meets one link of the network: `up`, `down`
-- (the call fails and nothing happens) or `lost` (it takes effect and the reply is lost). A
-- pipeline is one call. `now` is the clock's second, which a handler reads as one value.
use go_flash_job.Base.{ℤ, List, [], ◌∷◌, ◌≡◌, refl}
use go_flash_job.Model.{TaskCommand, ExecutionLog, Error, network}
use go_flash_job.Redis.{Redis}

pub data Link : Type 0 where
  up down lost : Link

pub data Res {ℓ} (A : Type ℓ) : Type ℓ where
  ok : A → Res A
  err : Error → Res A

abbrev pub head_link : List Link → Link
head_link [] = up
head_link (l ∷ r) = l

abbrev pub tail_links : List Link → List Link
tail_links [] = []
tail_links (l ∷ r) = r

module _ (R : Redis) where
  -- `mq` and `kafka` hold the messages that have been handed over, the last one first.
  pub record World : Type 0 where
    pub db : R.Db
    pub now : ℤ
    pub links : List Link
    pub mq : List TaskCommand
    pub kafka : List ExecutionLog

  abbrev pub M : Type 0 → Type 0
  M A = World → Res A × World

abbrev pub ret : {R : Redis} {A : Type 0} → A → M R A
ret a w = (ok a, w)

abbrev pub fail_with : {R : Redis} {A : Type 0} → Error → M R A
fail_with e w = (err e, w)

abbrev pub continue_with :
    {R : Redis} {A B : Type 0} → Res A × World R → (A → M R B) → Res B × World R
continue_with (ok a, w) f = f a w
continue_with (err e, w) f = (err e, w)

-- `if err != nil { return err }` between two steps.
infixl 5 ◌>>=◌ ◌>>◌
abbrev pub ◌>>=◌ : {R : Redis} {A B : Type 0} → M R A → (A → M R B) → M R B
◌>>=◌ m f w = continue_with (m w) f

abbrev pub ◌>>◌ : {R : Redis} {A B : Type 0} → M R A → M R B → M R B
m >> k = m >>= λ _. k

abbrev pub caught : {R : Redis} {A : Type 0} → Res A × World R → Res (Res A) × World R
caught (r, w) = (ok r, w)

-- The error as a value, for code that logs it and goes on.
abbrev pub attempt : {R : Redis} {A : Type 0} → M R A → M R (Res A)
attempt m w = caught (m w)

-- `_ = m`, or an error that is only logged.
abbrev pub ignore_error : {R : Redis} {A : Type 0} → M R A → M R (Unit {0})
ignore_error m w = (ok tt, (m w).1)

-- One call of Redis, over the link that it meets.
abbrev pub call_on : {R : Redis} {A : Type 0} → Link → (R.Db → A × R.Db) → M R A
call_on up f w = (ok (f w.db).0, record w { db = (f w.db).1; links = tail_links w.links })
call_on down f w = (err network, record w { links = tail_links w.links })
call_on lost f w = (err network, record w { db = (f w.db).1; links = tail_links w.links })

abbrev pub call : {R : Redis} {A : Type 0} → (R.Db → A × R.Db) → M R A
call f w = call_on (head_link w.links) f w

-- A call that only writes, and one that only reads.
abbrev pub write : {R : Redis} → (R.Db → R.Db) → M R (Unit {0})
write f = call (λ d. (tt, f d))

abbrev pub read : {R : Redis} {A : Type 0} → (R.Db → A) → M R A
read f = call (λ d. (f d, d))

abbrev pub current_time : {R : Redis} → M R ℤ
current_time w = (ok w.now, w)

-- PublishWithContext
abbrev pub send_mq_on : {R : Redis} → Link → TaskCommand → M R (Unit {0})
send_mq_on up c w = (ok tt, record w { mq = c ∷ w.mq; links = tail_links w.links })
send_mq_on down c w = (err network, record w { links = tail_links w.links })
send_mq_on lost c w = (err network, record w { mq = c ∷ w.mq; links = tail_links w.links })

abbrev pub send_mq : {R : Redis} → TaskCommand → M R (Unit {0})
send_mq c w = send_mq_on (head_link w.links) c w

-- A send on the producer's channel, which either takes the message or times out.
abbrev pub send_kafka_on : {R : Redis} → Link → ExecutionLog → M R (Unit {0})
send_kafka_on up l w = (ok tt, record w { kafka = l ∷ w.kafka; links = tail_links w.links })
send_kafka_on _ l w = (err network, record w { links = tail_links w.links })

abbrev pub send_kafka : {R : Redis} → ExecutionLog → M R (Unit {0})
send_kafka l w = send_kafka_on (head_link w.links) l w

-- A property of the database that the call's effect keeps holds after the call, however it ends.
call_on_keeps :
    (R : Redis) {A : Type 0} (P : R.Db → Type 0) (l : Link) (f : R.Db → A × R.Db) (w : World R)
    → P w.db
    → P (f w.db).1
    → P (call_on {R = R} l f w).1.db
call_on_keeps R P up f w h k = k
call_on_keeps R P down f w h k = h
call_on_keeps R P lost f w h k = k

pub call_keeps :
    (R : Redis) {A : Type 0} (P : R.Db → Type 0) (f : R.Db → A × R.Db) (w : World R)
    → P w.db
    → P (f w.db).1
    → P (call {R = R} f w).1.db
call_keeps R P f w h k = call_on_keeps R P (head_link w.links) f w h k

pub bind_keeps :
    (R : Redis) {A B : Type 0} (P : R.Db → Type 0) (r : Res A × World R) (k : A → M R B)
    → P r.1.db
    → ((a : A) (w : World R) → P w.db → P (k a w).1.db)
    → P (continue_with {R = R} r k).1.db
bind_keeps R P (ok a, w) k h f = f a w h
bind_keeps R P (err e, w) k h f = h

send_kafka_on-db :
    (R : Redis) (k : Link) (l : ExecutionLog) (w : World R)
    → (send_kafka_on {R = R} k l w).1.db ≡ w.db
send_kafka_on-db R up l w = refl
send_kafka_on-db R down l w = refl
send_kafka_on-db R lost l w = refl

pub send_kafka-db :
    (R : Redis) (l : ExecutionLog) (w : World R) → (send_kafka {R = R} l w).1.db ≡ w.db
send_kafka-db R l w = send_kafka_on-db R (head_link w.links) l w
