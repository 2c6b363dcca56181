-- ===== src/Leader.antt =====
-- scheduler/internal/core/leader.go: the lock in Redis by which one of several schedulers leads.
-- Time is in seconds. Reading and writing the lock are commands of the Redis server, a parameter
-- with their documented effect on the value and its time to live.
pub mod Lease
pub mod One
pub mod Two
use Prim.Native.String.{String}
use text.Mathlib.Text.{◌==◌ as str_eq}
use go_flash_job.Base.{
  ℕ, ◌+◌, ◌≡◌, Bool, true, false, ◌&&◌, Option, none, some, ltb, ◌==◌, if◌then◌else◌,
}
use go_flash_job.Redis.World.{Link, up, down, lost}

-- The value of a key with the time at which it expires, as it is seen at `now`.
abbrev pub alive : ℕ → Option (String × ℕ) → Option String
alive now none = none
alive now (some (v, e)) = if ltb now e then some v else none

pub record LockServer : Type 1 where
  pub Db : Type 0
  -- What is stored under SchedulerLockKey.
  pub lock : Db → Option (String × ℕ)
  -- SET with an expiry, DEL, and EXPIRE of a key that is there.
  pub set : String → ℕ → Db → Db
  pub del : Db → Db
  pub expire : ℕ → Db → Db
  pub lock-set : (v : String) (e : ℕ) (d : Db) → lock (set v e d) ≡ some (v, e)
  pub lock-del : (d : Db) → lock (del d) ≡ none
  pub lock-expire :
      (e : ℕ) (d : Db) (v : String) (e' : ℕ)
      → lock d ≡ some (v, e')
      → lock (expire e d) ≡ some (v, e)

abbrev pub lock_ttl : ℕ
lock_ttl = 10

-- LeaderElection. `until` is not a field of the source: it is the end of the time to live that the
-- last acquire or renewal with an answer has set.
pub record LeaderElection : Type 0 where
  pub instance_id : String
  pub is_leader : Bool
  pub until : ℕ

abbrev pub is_holder : String → Option String → Bool
is_holder id none = false
is_holder id (some v) = str_eq v id

-- The answer of a call, if it arrives, and the database after it.
abbrev pub over : {A D : Type 0} → Link → A × D → D → Option A × D
over up (a, d') d = (some a, d')
over down r d = (none, d)
over lost (a, d') d = (none, d')

abbrev pub lead : ℕ → LeaderElection → LeaderElection
lead now n = record n { is_leader = true; until = now + lock_ttl }

abbrev pub step_down : LeaderElection → LeaderElection
step_down n = record n { is_leader = false }

module _ (S : LockServer) where
  -- SETNX with lockTTL
  unfoldable pub set_nx : ℕ → String → S.Db → Bool × S.Db
  set_nx now id d = elim (alive now (S.lock d)) [
    | none ↦ (true, S.set id (now + lock_ttl) d)
    | some v ↦ (false, d)
  ]

  -- renewScript
  unfoldable pub renew_script : ℕ → String → S.Db → Bool × S.Db
  renew_script now id d =
      if is_holder id (alive now (S.lock d))
      then (true, S.expire (now + lock_ttl) d)
      else (false, d)

  -- releaseScript
  unfoldable pub release_script : ℕ → String → S.Db → Bool × S.Db
  release_script now id d =
      if is_holder id (alive now (S.lock d)) then (true, S.del d) else (false, d)

  -- An attempt of WaitForLeadership, with tryAcquire.
  unfoldable pub acquired : ℕ → LeaderElection → Option Bool × S.Db → LeaderElection × S.Db
  acquired now n (some true, d) = (lead now n, d)
  acquired now n (some false, d) = (n, d)
  acquired now n (none, d) = (n, d)

  unfoldable pub try_acquire : Link → ℕ → LeaderElection → S.Db → LeaderElection × S.Db
  unfolding set_nx acquired
  try_acquire l now n d = acquired now n (over l (set_nx now n.instance_id d) d)

  -- A round of renewLoop.
  unfoldable pub renewed : ℕ → LeaderElection → Option Bool × S.Db → LeaderElection × S.Db
  renewed now n (some true, d) = (record n { until = now + lock_ttl }, d)
  renewed now n (some false, d) = (step_down n, d)
  renewed now n (none, d) = (step_down n, d)

  unfoldable pub renew : Link → ℕ → LeaderElection → S.Db → LeaderElection × S.Db
  unfolding renew_script renewed
  renew l now n d = renewed now n (over l (renew_script now n.instance_id d) d)

  -- Release: an error leaves the flag.
  unfoldable pub released : LeaderElection → Option Bool × S.Db → LeaderElection × S.Db
  released n (some b, d) = (step_down n, d)
  released n (none, d) = (n, d)

  unfoldable pub release_if : Bool → Link → ℕ → LeaderElection → S.Db → LeaderElection × S.Db
  unfolding release_script released
  release_if false l now n d = (n, d)
  release_if true l now n d = released n (over l (release_script now n.instance_id d) d)

  unfoldable pub release : Link → ℕ → LeaderElection → S.Db → LeaderElection × S.Db
  unfolding release_if
  release l now n d = release_if n.is_leader l now n d
