-- ===== src/Leader/Two.antt =====
-- scheduler/internal/core/leader.go: a leader whose lock has expired, between two renewals.
use Prim.Native.String.{String}
use text.Mathlib.Text.{◌==◌ as str_eq}
use text.Mathlib.TextEquality.{eq_iff}
use text.Mathlib.TextPositions.{eq_refl}
use go_flash_job.Base.{
  ℕ, ◌+◌, ◌≤◌, ◌<◌, ◌≡◌, refl, sym, ap, ◌∙◌, ◌≢◌, true, false, none, some, arith,
}
use go_flash_job.Redis.World.{Link, up, down, lost}
use go_flash_job.Leader.{
  alive, LockServer, lead, acquired, try_acquire, renew, renewed, renew_script,
}
use go_flash_job.Leader.Lease.{
  System, put, tick, acquire, renewal, Reachable, here, next, AreNamed, set_nx-free, renew-kept,
}

module _ (S : LockServer) where
  -- `k` seconds go by and `j` tries to acquire the lock.
  abbrev pub taken_over : System S → String → ℕ → System S
  taken_over s j k =
      put S (record s { now = s.now + k }) j (try_acquire S up (s.now + k) (s.nodes j) s.db)

  -- `m` seconds go by and `i` tries to renew the lock.
  abbrev pub renews_after : System S → String → ℕ → Link → System S
  renews_after s i m l =
      put S (record s { now = s.now + m }) i (renew S l (s.now + m) (s.nodes i) s.db)

  acquire_free :
      (now : ℕ) (s : System S) (j : String)
      → alive now (S.lock s.db) ≡ none
      → try_acquire S up now (s.nodes j) s.db
        ≡ (lead now (s.nodes j), S.set (s.nodes j).instance_id (now + 10) s.db)
  unfolding try_acquire acquired
  acquire_free now s j free = rw (set_nx-free S now (s.nodes j) s.db free) refl

  renew_foreign :
      (now : ℕ) (s : System S) (i v : String) (e : ℕ) (l : Link)
      → S.lock s.db ≡ some (v, e)
      → now < e
      → v ≢ (s.nodes i).instance_id
      → (renew S l now (s.nodes i) s.db).0.is_leader ≡ false
  unfolding renew renewed renew_script
  renew_foreign now s i v e down held lt other = refl
  renew_foreign now s i v e lost held lt other = refl
  renew_foreign now s i v e up held lt other =
      let foreign : str_eq v (s.nodes i).instance_id ≡ false =
        ground (arith, eq_iff v (s.nodes i).instance_id) in
      let alive_now : alive now (S.lock s.db) ≡ some v = rw held (ground arith) in
      rw (alive_now, foreign) refl

  -- Scheduler `i` leads and holds the lock until `e`. Once that time has come, `j` can take the
  -- lock for ten seconds, and then both call themselves leader. `i` learns it at its next renewal
  -- only: if that comes within the ten seconds then, over any link, `i` steps down, `j` still
  -- leads and the lock is what it was. This is a run of the system.
  pub two_leaders :
      (s : System S) (i j : String) (e k m : ℕ) (l : Link)
      → i ≢ j
      → AreNamed S s
      → (s.nodes i).is_leader ≡ true
      → S.lock s.db ≡ some (i, e)
      → e ≤ s.now + k
      → m < 10
      → let t = taken_over s j k in
        let u = renews_after t i m l in
        Reachable S s t
        × ((t.nodes i).is_leader ≡ true)
        × ((t.nodes j).is_leader ≡ true)
        × (S.lock t.db ≡ some (j, s.now + k + 10))
        × Reachable S t u
        × ((u.nodes i).is_leader ≡ false)
        × ((u.nodes j).is_leader ≡ true)
        × (S.lock u.db ≡ some (j, s.now + k + 10))
  two_leaders s i j e k m l ne named leads held passed soon = (
    next (next here (tick k)) (acquire j up),
    rw apart leads,
    j_leads,
    locked,
    next (next here (tick m)) (renewal i l),
    rw (eq_refl i) (renew_foreign (t.now + m) t i j (s.now + k + 10) l locked (omega arith) other),
    rw apart' j_leads,
    ap S.lock (
          renew-kept S (t.now + m) (t.nodes i) t.db j (s.now + k + 10) locked (omega arith) other l)
        ∙ locked,
  )
    where
      t : System S
      t = taken_over s j k

      free : alive (s.now + k) (S.lock s.db) ≡ none
      free = rw held (ground arith)

      apart : str_eq j i ≡ false
      apart = ground (arith, eq_iff j i)

      apart' : str_eq i j ≡ false
      apart' = ground (arith, eq_iff i j)

      took :
          try_acquire S up (s.now + k) (s.nodes j) s.db
          ≡ (lead (s.now + k) (s.nodes j), S.set (s.nodes j).instance_id (s.now + k + 10) s.db)
      took = acquire_free (s.now + k) s j free

      j_leads : (t.nodes j).is_leader ≡ true
      j_leads = rw (eq_refl j, took) refl

      locked : S.lock t.db ≡ some (j, s.now + k + 10)
      locked =
          ap (λ r. S.lock r.1) took
          ∙ S.lock-set (s.nodes j).instance_id (s.now + k + 10) s.db
          ∙ ap (λ n. some (n, s.now + k + 10)) (named j)

      other : j ≢ (t.nodes i).instance_id
      other = rw apart (λ q. ne (sym (q ∙ named i)))
