-- ===== src/Lifecycle/Stop.antt =====
-- The lock of the leader when schedulers stop and take over.
use Prim.Native.String.{String}
use text.Mathlib.TextPositions.{eq_refl}
use go_flash_job.Base.{
  ℕ, zero, suc, ◌+◌, ◌≤◌, ◌<◌, ◌≡◌, refl, ap, ◌∙◌, ◌⊎◌, inl, inr, Bool, true, false, none, some,
  List, [], ◌∷◌, arith, ltb, if◌then◌else◌, Bool-cases, ltb→lt, lt→ltb,
}
use go_flash_job.Redis.World.{Link, up}
use go_flash_job.Leader.{
  LockServer, lock_ttl, LeaderElection, over, lead, release_script, acquired, try_acquire, released,
  release_if, release,
}
use go_flash_job.Leader.Lease.{set_nx-free, set_nx-taken}
use go_flash_job.Lifecycle.{StopOrder, renew_loop_first, stop_first, wait_for_leadership, shut_down}

-- Attempts over a network that is up.
abbrev pub ups : ℕ → List Link
ups zero = []
ups (suc k) = up ∷ ups k

module _ (S : LockServer) where
  try_acquire-taken :
      (now : ℕ) (n : LeaderElection) (d : S.Db) (v : String) (e : ℕ)
      → S.lock d ≡ some (v, e)
      → now < e
      → try_acquire S up now n d ≡ (n, d)
  unfolding try_acquire acquired
  try_acquire-taken now n d v e held lt =
      ap (λ r. acquired S now n (over up r d)) (set_nx-taken S now n d v e held lt)

  own_lock :
      (id : String) (now : ℕ) (d : S.Db) (e : ℕ)
      → S.lock d ≡ some (id, e)
      → now < e
      → release_script S now id d ≡ (true, S.del d)
  unfolding release_script
  own_lock id now d e held lt = rw held (rw (lt→ltb now e lt) (rw (eq_refl id) refl))

  release_if-frees :
      (b : Bool) (now : ℕ) (n : LeaderElection) (d : S.Db) (e : ℕ)
      → b ≡ true
      → S.lock d ≡ some (n.instance_id, e)
      → now < e
      → (release_if S b up now n d).1 ≡ S.del d
  unfolding release_if released
  release_if-frees false now n d e leads held lt = absurd cc
  release_if-frees true now n d e leads held lt =
      ap (λ r. (released S n (over up r d)).1) (own_lock n.instance_id now d e held lt)

  -- A leader that gets its signal while it holds the lock no longer leads when it has ended. If
  -- Stop comes before renewLoop has seen that the context is cancelled, and the network is up, the
  -- lock is free. If renewLoop comes first, the lock is not released, whatever the network does: it
  -- stays until its time to live is over, and until then no other scheduler acquires it.
  pub shut_down-lock :
      (now : ℕ) (n : LeaderElection) (d : S.Db) (e : ℕ)
      → n.is_leader ≡ true
      → S.lock d ≡ some (n.instance_id, e)
      → now < e
      → ((o : StopOrder) (l : Link) → (shut_down S o l now n d).0.is_leader ≡ false)
        × (S.lock (shut_down S stop_first up now n d).1 ≡ none)
        × ((l : Link) (later : ℕ) (m : LeaderElection)
            → later < e
            → try_acquire S up later m (shut_down S renew_loop_first l now n d).1 ≡ (m, d))
  unfolding shut_down release release_if
  shut_down-lock now n d e leads held lt = (
    stopped,
    ap S.lock (release_if-frees n.is_leader now n d e leads held lt) ∙ S.lock-del d,
    λ l later m before. try_acquire-taken later m d n.instance_id e held before,
  )
    where
      stopped : (o : StopOrder) (l : Link) → (shut_down S o l now n d).0.is_leader ≡ false
      stopped renew_loop_first l = refl
      stopped stop_first l = refl

  try_acquire-free :
      (now : ℕ) (n : LeaderElection) (d : S.Db) (v : String) (e : ℕ)
      → S.lock d ≡ some (v, e)
      → e ≤ now
      → try_acquire S up now n d ≡ (lead now n, S.set n.instance_id (now + lock_ttl) d)
  unfolding try_acquire acquired
  try_acquire-free now n d v e held le =
      ap (λ r. acquired S now n (over up r d)) (set_nx-free S now n d (rw held (ground arith)))

  -- How a wait ended: with the lock, at a time `t`.
  abbrev pub IsTaken : LeaderElection → ℕ → ℕ → LeaderElection × S.Db × ℕ → Type 0
  IsTaken n now e (n', d', t) =
      (n'.is_leader ≡ true)
      × (S.lock d' ≡ some (n.instance_id, t + lock_ttl))
      × ((t ≤ e) ⊎ (t ≡ now))

  wait_again :
      (r : List Link) (now : ℕ) (n : LeaderElection) (d : S.Db) (v : String) (e : ℕ)
      → n.is_leader ≡ false
      → S.lock d ≡ some (v, e)
      → now < e
      → wait_for_leadership S (up ∷ r) now n d ≡ wait_for_leadership S r (suc now) n d
  unfolding wait_for_leadership
  wait_again r now n d v e waits held lt =
      ap (λ p. if p.0.is_leader then (p.0, p.1, now) else wait_for_leadership S r (suc now) p.0 p.1)
        (try_acquire-taken now n d v e held lt)
      ∙ rw waits refl

  wait_over :
      (r : List Link) (now : ℕ) (n : LeaderElection) (d : S.Db) (v : String) (e : ℕ)
      → S.lock d ≡ some (v, e)
      → e ≤ now
      → wait_for_leadership S (up ∷ r) now n d
        ≡ (lead now n, S.set n.instance_id (now + lock_ttl) d, now)
  unfolding wait_for_leadership
  wait_over r now n d v e held le =
      ap (λ p. if p.0.is_leader then (p.0, p.1, now) else wait_for_leadership S r (suc now) p.0 p.1)
        (try_acquire-free now n d v e held le)

  later-IsTaken :
      (n : LeaderElection) (now e : ℕ) (r : LeaderElection × S.Db × ℕ)
      → now < e
      → IsTaken n (suc now) e r
      → IsTaken n now e r
  later-IsTaken n now e r lt (leads, lock, inl le) = (leads, lock, inl le)
  later-IsTaken n now e r lt (leads, lock, inr at) = (leads, lock, inl (omega arith))

  over_now-IsTaken :
      (k now : ℕ) (n : LeaderElection) (d : S.Db) (v : String) (e : ℕ)
      → S.lock d ≡ some (v, e)
      → e ≤ now
      → IsTaken n now e (wait_for_leadership S (ups (suc k)) now n d)
  over_now-IsTaken k now n d v e held le =
      rw (wait_over (ups k) now n d v e held le)
        (refl, S.lock-set n.instance_id (now + lock_ttl) d, inr refl)

  -- A scheduler that waits takes over: when the holder of the lock does not renew it, nobody else
  -- acts and the network is up, it leads, with the lock in its name, after at most one attempt
  -- more than the time to live that is left has seconds, and no later than the end of it.
  pub wait_for_leadership-takes :
      (k now : ℕ) (n : LeaderElection) (d : S.Db) (v : String) (e : ℕ)
      → n.is_leader ≡ false
      → S.lock d ≡ some (v, e)
      → e ≤ now + k
      → IsTaken n now e (wait_for_leadership S (ups (suc k)) now n d)
  wait_for_leadership-takes zero now n d v e waits held enough =
      over_now-IsTaken zero now n d v e held (omega arith)
  wait_for_leadership-takes (suc k) now n d v e waits held enough = elim (Bool-cases (ltb now e)) [
    | inr over ↦ over_now-IsTaken (suc k) now n d v e held (ground arith)
    | inl still ↦
        let lt = ltb→lt now e still in
        let later = wait_for_leadership-takes k (suc now) n d v e waits held (omega arith) in
        rw (wait_again (ups (suc k)) now n d v e waits held lt)
          (later-IsTaken n now e (wait_for_leadership S (ups (suc k)) (suc now) n d) lt later)
  ]
