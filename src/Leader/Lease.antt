-- ===== src/Leader/Lease.antt =====
-- Several schedulers on one lock: who leads, and for how long.
use Prim.Native.String.{String}
use text.Mathlib.Text.{◌==◌ as str_eq}
use text.Mathlib.TextEquality.{eq_iff}
use go_flash_job.Base.{
  ℕ, ◌+◌, ◌≤◌, ◌<◌, ◌≡◌, ◌≢◌, refl, ap, ◌∙◌, inl, inr, Bool, true, false, Option, none, some,
  Option-cases, ltb, if◌then◌else◌, Bool-cases, arith,
}
use go_flash_job.Redis.World.{Link, up, down, lost}
use go_flash_job.Leader.{
  alive, LockServer, lock_ttl, LeaderElection, is_holder, over, step_down, set_nx, renew_script,
  release_script, acquired, try_acquire, renewed, renew, released, release_if, release,
}

module _ (S : LockServer) where
  -- The schedulers, by their names, with the server and the time.
  pub record System : Type 0 where
    pub now : ℕ
    pub nodes : String → LeaderElection
    pub db : S.Db

  abbrev pub put : System → String → LeaderElection × S.Db → System
  put s i (n, d) = record s { nodes = λ j. if str_eq i j then n else s.nodes j; db = d }

  -- What can happen: time goes by, or a scheduler makes one of its calls, over any link; only a
  -- release whose reply is lost is left out.
  pub data Step (s : System) : System → Type 0 where
    tick : (k : ℕ) → Step s (record s { now = s.now + k })
    acquire : (i : String) (l : Link) → Step s (put s i (try_acquire S l s.now (s.nodes i) s.db))
    renewal : (i : String) (l : Link) → Step s (put s i (renew S l s.now (s.nodes i) s.db))
    give_up :
        (i : String) (l : Link) → l ≢ lost → Step s (put s i (release S l s.now (s.nodes i) s.db))
    cancelled : (i : String) → Step s (put s i (step_down (s.nodes i), s.db))

  pub data Reachable (s : System) : System → Type 0 where
    here : Reachable s s
    next : {t u : System} → Reachable s t → Step t u → Reachable s u

  -- A scheduler that calls itself leader within the time to live of its lock holds the lock.
  abbrev pub IsLease : ℕ → LeaderElection → S.Db → Type 0
  IsLease now n d =
      n.is_leader ≡ true
      → now < n.until
      → (e : ℕ) × (S.lock d ≡ some (n.instance_id, e)) × (n.until ≤ e)

  abbrev pub IsSafe : System → Type 0
  IsSafe s = (i : String) → IsLease s.now (s.nodes i) s.db

  abbrev pub AreNamed : System → Type 0
  AreNamed s = (i : String) → (s.nodes i).instance_id ≡ i

  alive-some :
      (now : ℕ) (d : S.Db) (v : String) (e : ℕ)
      → S.lock d ≡ some (v, e)
      → now < e
      → alive now (S.lock d) ≡ some v
  alive-some now d v e h lt = rw h (ground arith)

  over_db : {A : Type 0} (l : Link) (a : A) (d : S.Db) → (over l (a, d) d).1 ≡ d
  over_db up a d = refl
  over_db down a d = refl
  over_db lost a d = refl

  -- A lock that is alive is not touched by the calls of a scheduler with another name.
  module _ (now : ℕ) (n : LeaderElection) (d : S.Db) (v : String) (e : ℕ)
      (held : S.lock d ≡ some (v, e)) (lt : now < e) where
    acquired_db : (r : Option Bool × S.Db) → (acquired S now n r).1 ≡ r.1
    unfolding acquired
    acquired_db (some true, d) = refl
    acquired_db (some false, d) = refl
    acquired_db (none, d) = refl

    renewed_db : (r : Option Bool × S.Db) → (renewed S now n r).1 ≡ r.1
    unfolding renewed
    renewed_db (some true, d) = refl
    renewed_db (some false, d) = refl
    renewed_db (none, d) = refl

    released_db : (r : Option Bool × S.Db) → (released S n r).1 ≡ r.1
    unfolding released
    released_db (some b, d) = refl
    released_db (none, d) = refl

    pub set_nx-taken : set_nx S now n.instance_id d ≡ (false, d)
    unfolding set_nx
    set_nx-taken = rw (alive-some now d v e held lt, set_nx)

    pub try_acquire-kept : (l : Link) → (try_acquire S l now n d).1 ≡ d
    unfolding try_acquire
    try_acquire-kept l =
        acquired_db (over l (set_nx S now n.instance_id d) d) ∙ rw set_nx-taken (over_db l false d)

    module _ (other : v ≢ n.instance_id) where
      not_named : str_eq v n.instance_id ≡ false
      not_named = elim (Bool-cases (str_eq v n.instance_id)) [
        | inl same ↦ absurd (other ((eq_iff v n.instance_id).0 same))
        | inr differ ↦ differ
      ]

      renew_script-taken : renew_script S now n.instance_id d ≡ (false, d)
      unfolding renew_script
      renew_script-taken = rw (alive-some now d v e held lt, not_named)

      release_script-taken : release_script S now n.instance_id d ≡ (false, d)
      unfolding release_script
      release_script-taken = rw (alive-some now d v e held lt, not_named)

      pub renew-kept : (l : Link) → (renew S l now n d).1 ≡ d
      unfolding renew
      renew-kept l =
          renewed_db (over l (renew_script S now n.instance_id d) d)
          ∙ rw renew_script-taken (over_db l false d)

      release_if-kept : (b : Bool) (l : Link) → (release_if S b l now n d).1 ≡ d
      unfolding release_if
      release_if-kept false l = refl
      release_if-kept true l =
          released_db (over l (release_script S now n.instance_id d) d)
          ∙ rw release_script-taken (over_db l false d)

      pub release-kept : (l : Link) → (release S l now n d).1 ≡ d
      unfolding release
      release-kept l = release_if-kept n.is_leader l

  holder_lock :
      (id : String) (now : ℕ) (o : Option (String × ℕ))
      → is_holder id (alive now o) ≡ true
      → (e : ℕ) × (o ≡ some (id, e))
  holder_lock id now none h = absurd cc
  holder_lock id now (some (v, e)) h = elim (Bool-cases (ltb now e)) [
    | inl early ↦
        let same : v ≡ id = (eq_iff v id).0 (ground arith) in (e, ap (λ x. some (x, e)) same)
    | inr late ↦ absurd (ground arith)
  ]

  pub set_nx-free :
      (now : ℕ) (n : LeaderElection) (d : S.Db)
      → alive now (S.lock d) ≡ none
      → set_nx S now n.instance_id d ≡ (true, S.set n.instance_id (now + lock_ttl) d)
  unfolding set_nx
  set_nx-free now n d free = rw (free, set_nx)

  set_nx-full :
      (now : ℕ) (n : LeaderElection) (d : S.Db) (v : String)
      → alive now (S.lock d) ≡ some v
      → set_nx S now n.instance_id d ≡ (false, d)
  unfolding set_nx
  set_nx-full now n d v taken = rw (taken, set_nx)

  -- What a scheduler's own calls do to its lease.
  module _ (now : ℕ) (n : LeaderElection) (d : S.Db) (lease : IsLease now n d) where
    pub stepped_down-IsLease : (d' : S.Db) → IsLease now (step_down n) d'
    stepped_down-IsLease d' leads lt = absurd cc

    free_lock :
        alive now (S.lock d) ≡ none
        → (l : Link) → IsLease now (try_acquire S l now n d).0 (try_acquire S l now n d).1
    unfolding try_acquire acquired
    free_lock free up =
        rw (set_nx-free now n d free)
          (λ leads lt. (now + lock_ttl, S.lock-set n.instance_id (now + lock_ttl) d, omega arith))
    free_lock free down = lease
    free_lock free lost = rw (set_nx-free now n d free) (λ leads lt.
        let (e, held, le) = lease leads lt in
        let alive_now = alive-some now d n.instance_id e held (omega arith) in absurd cc)

    taken_lock :
        (v : String)
        → alive now (S.lock d) ≡ some v
        → (l : Link) → IsLease now (try_acquire S l now n d).0 (try_acquire S l now n d).1
    unfolding try_acquire acquired
    taken_lock v taken up = rw (set_nx-full now n d v taken) lease
    taken_lock v taken down = lease
    taken_lock v taken lost = rw (set_nx-full now n d v taken) lease

    pub try_acquire-IsLease :
        (l : Link) → IsLease now (try_acquire S l now n d).0 (try_acquire S l now n d).1
    try_acquire-IsLease l = elim (Option-cases (alive now (S.lock d))) [
      | inl free ↦ free_lock free l
      | inr (v, taken) ↦ taken_lock v taken l
    ]

    pub renew-IsLease : (l : Link) → IsLease now (renew S l now n d).0 (renew S l now n d).1
    unfolding renew renewed renew_script
    renew-IsLease down = stepped_down-IsLease d
    renew-IsLease lost = stepped_down-IsLease (renew_script S now n.instance_id d).1
    renew-IsLease up = elim (Bool-cases (is_holder n.instance_id (alive now (S.lock d)))) [
      | inl holds ↦
          let (e, held) = holder_lock n.instance_id now (S.lock d) holds in
          rw holds (λ leads lt.
            (now + lock_ttl, S.lock-expire (now + lock_ttl) d n.instance_id e held, omega arith))
      | inr other ↦ rw other (stepped_down-IsLease d)
    ]

    release_if-IsLease :
        (b : Bool) (l : Link)
        → l ≢ lost
        → IsLease now (release_if S b l now n d).0 (release_if S b l now n d).1
    unfolding release_if released release_script
    release_if-IsLease false l kept = lease
    release_if-IsLease true up kept = stepped_down-IsLease (release_script S now n.instance_id d).1
    release_if-IsLease true down kept = lease
    release_if-IsLease true lost kept = absurd (kept refl)

    pub release-IsLease :
        (l : Link) → l ≢ lost → IsLease now (release S l now n d).0 (release S l now n d).1
    unfolding release
    release-IsLease l kept = release_if-IsLease n.is_leader l kept

  -- The calls keep a scheduler's name.
  module _ (now : ℕ) (n : LeaderElection) where
    acquired_id : (r : Option Bool × S.Db) → (acquired S now n r).0.instance_id ≡ n.instance_id
    unfolding acquired
    acquired_id (some true, d) = refl
    acquired_id (some false, d) = refl
    acquired_id (none, d) = refl

    renewed_id : (r : Option Bool × S.Db) → (renewed S now n r).0.instance_id ≡ n.instance_id
    unfolding renewed
    renewed_id (some true, d) = refl
    renewed_id (some false, d) = refl
    renewed_id (none, d) = refl

    pub try_acquire_id :
        (d : S.Db) (l : Link) → (try_acquire S l now n d).0.instance_id ≡ n.instance_id
    unfolding try_acquire
    try_acquire_id d l = acquired_id (over l (set_nx S now n.instance_id d) d)

    pub renew_id : (d : S.Db) (l : Link) → (renew S l now n d).0.instance_id ≡ n.instance_id
    unfolding renew
    renew_id d l = renewed_id (over l (renew_script S now n.instance_id d) d)

    release_if_id :
        (b : Bool) (l : Link) (d : S.Db) → (release_if S b l now n d).0.instance_id ≡ n.instance_id
    unfolding release_if released
    release_if_id false l d = refl
    release_if_id true up d = refl
    release_if_id true down d = refl
    release_if_id true lost d = refl

    pub release_id : (d : S.Db) (l : Link) → (release S l now n d).0.instance_id ≡ n.instance_id
    unfolding release
    release_id d l = release_if_id n.is_leader l d
