-- ===== src/Leader/One.antt =====
-- How many schedulers lead at a time.
use Prim.Native.String.{String}
use text.Mathlib.Text.{◌==◌ as str_eq}
use text.Mathlib.TextEquality.{eq_iff}
use text.Mathlib.TextPositions.{eq_refl}
use go_flash_job.Base.{
  ℕ, ◌<◌, ◌≡◌, ◌≢◌, refl, sym, ap, ◌∙◌, inl, inr, true, false, Option, none, some, Bool-cases,
  arith,
}
use go_flash_job.Leader.{LockServer, LeaderElection, step_down, try_acquire, renew, release}
use go_flash_job.Leader.Lease.{
  System, put, Step, tick, acquire, renewal, give_up, cancelled, Reachable, here, next, IsLease,
  IsSafe, AreNamed, try_acquire-kept, renew-kept, release-kept, stepped_down-IsLease,
  try_acquire-IsLease, renew-IsLease, release-IsLease, try_acquire_id, renew_id, release_id,
}

module _ (S : LockServer) where
  abbrev pub IsGood : System S → Type 0
  IsGood s = IsSafe S s × AreNamed S s

  module _ (s : System S) (i : String) (n : LeaderElection) (d : S.Db)
      (named : n.instance_id ≡ (s.nodes i).instance_id) where
    put_id : (k : String) → ((put S s i (n, d)).nodes k).instance_id ≡ (s.nodes k).instance_id
    put_id k = elim (Bool-cases (str_eq i k)) [
      | inl e ↦ rw e (named ∙ ap (λ m. (s.nodes m).instance_id) ((eq_iff i k).0 e))
      | inr e ↦ rw e
    ]

    put-AreNamed : AreNamed S s → AreNamed S (put S s i (n, d))
    put-AreNamed named_all k = put_id k ∙ named_all k

    foreign-IsLease :
        IsGood s
        → ((v : String) (e : ℕ)
            → S.lock s.db ≡ some (v, e)
            → s.now < e
            → v ≢ (s.nodes i).instance_id
            → d ≡ s.db)
        → (j : String) → j ≢ i
        → IsLease S s.now (s.nodes j) d
    foreign-IsLease (safe, named_all) kept j ne leads lt =
        let (e, held, le) = safe j leads lt in
        let same : d ≡ s.db =
          kept (s.nodes j).instance_id e held (omega arith)
            (λ q. ne (sym (named_all j) ∙ q ∙ named_all i)) in
        (e, ap S.lock same ∙ held, le)

    put-IsGood :
        IsGood s
        → IsLease S s.now n d
        → ((v : String) (e : ℕ)
            → S.lock s.db ≡ some (v, e)
            → s.now < e
            → v ≢ (s.nodes i).instance_id
            → d ≡ s.db)
        → IsGood (put S s i (n, d))
    put-IsGood good own kept = (λ j. put_lease j, put-AreNamed good.1)
      where
        put_lease : (j : String) → IsLease S s.now ((put S s i (n, d)).nodes j) d
        put_lease j = elim (Bool-cases (str_eq i j)) [
          | inl e ↦ rw e own
          | inr e ↦ rw e (foreign-IsLease good kept j (λ q. ground (arith, eq_refl i, q)))
        ]

  Step-IsGood : {s t : System S} → IsGood s → Step S s t → IsGood t
  Step-IsGood {s} good (tick k) = (λ i leads lt. good.0 i leads (omega arith), good.1)
  Step-IsGood {s} good (acquire i l) =
      let n = s.nodes i in
      put-IsGood s i (try_acquire S l s.now n s.db).0 (try_acquire S l s.now n s.db).1
        (try_acquire_id S s.now n s.db l) good (try_acquire-IsLease S s.now n s.db (good.0 i) l)
        (λ v e held lt other. try_acquire-kept S s.now n s.db v e held lt l)
  Step-IsGood {s} good (renewal i l) =
      let n = s.nodes i in
      put-IsGood s i (renew S l s.now n s.db).0 (renew S l s.now n s.db).1
        (renew_id S s.now n s.db l) good (renew-IsLease S s.now n s.db (good.0 i) l)
        (λ v e held lt other. renew-kept S s.now n s.db v e held lt other l)
  Step-IsGood {s} good (give_up i l answered) =
      let n = s.nodes i in
      put-IsGood s i (release S l s.now n s.db).0 (release S l s.now n s.db).1
        (release_id S s.now n s.db l) good (release-IsLease S s.now n s.db (good.0 i) l answered)
        (λ v e held lt other. release-kept S s.now n s.db v e held lt other l)
  Step-IsGood {s} good (cancelled i) =
      put-IsGood s i (step_down (s.nodes i)) s.db refl good
        (stepped_down-IsLease S s.now (s.nodes i) s.db (good.0 i) s.db) (λ v e held lt other. refl)

  pub Reachable-IsGood : {s t : System S} → IsGood s → Reachable S s t → IsGood t
  Reachable-IsGood good here = good
  Reachable-IsGood good (next r step) = Step-IsGood (Reachable-IsGood good r) step

  -- Starting with no leader, each scheduler being known by its instance id, whatever the schedulers do
  -- and the network does, except losing the reply of a release: two schedulers that call
  -- themselves leader within the time to live that their last answered acquire or renewal has set
  -- are the same one.
  pub Reachable-one_leader :
      (s t : System S)
      → AreNamed S s
      → ((i : String) → (s.nodes i).is_leader ≡ false)
      → Reachable S s t
      → (i j : String) → (t.nodes i).is_leader ≡ true
      → t.now < (t.nodes i).until
      → (t.nodes j).is_leader ≡ true
      → t.now < (t.nodes j).until
      → i ≡ j
  Reachable-one_leader s t named_all idle r i j leads lt leads' lt' =
      let good = Reachable-IsGood ((λ k on l. absurd (ground (arith, idle k))), named_all) r in
      let (e, held, le) = good.0 i leads lt in
      let (e', held', le') = good.0 j leads' lt' in
      sym (good.1 i) ∙ ap name (sym held ∙ held') ∙ good.1 j
    where
      name : Option (String × ℕ) → String
      name none = ""
      name (some (v, e)) = v
