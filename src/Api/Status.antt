-- ===== src/Api/Status.antt =====
-- HandleStatus of scheduler/internal/api/job_handler.go, by which a monitor finds the leader.
use Prim.Native.String.{String}
use go_flash_job.Base.{ℕ, ◌<◌, ◌≡◌, Bool, true, false, Option, some, arith, lt→ltb}
use go_flash_job.Redis.World.{Link, up}
use go_flash_job.Leader.{alive, LockServer, LeaderElection, over}
use go_flash_job.Leader.Lease.{System, Reachable, AreNamed}
use go_flash_job.Leader.One.{Reachable-IsGood}

-- The body of the answer. `leader_id` is empty when there is no lock, or its value does not arrive.
pub record StatusAnswer : Type 0 where
  pub instance_id : String
  pub is_leader : Bool
  pub leader_id : String

abbrev pub text_or_empty : Option (Option String) → String
text_or_empty (some (some v)) = v
text_or_empty _ = ""

module _ (S : LockServer) where
  -- HandleStatus: GET of SchedulerLockKey, its error ignored.
  unfoldable pub handle_status : Link → ℕ → LeaderElection → S.Db → StatusAnswer
  handle_status l now n d = record {
    instance_id = n.instance_id;
    is_leader = n.is_leader;
    leader_id = text_or_empty (over l (alive now (S.lock d), d) d).0;
  }

  -- Starting with no leader, whatever the schedulers do and the network does except losing the
  -- reply of a release: while a scheduler leads within its lease, every scheduler that can
  -- read the lock answers with that leader's id.
  pub handle_status-finds_leader :
      (s t : System S)
      → AreNamed S s
      → ((i : String) → (s.nodes i).is_leader ≡ false)
      → Reachable S s t
      → (i j : String) → (t.nodes i).is_leader ≡ true
      → t.now < (t.nodes i).until
      → (handle_status up t.now (t.nodes j) t.db).leader_id ≡ i
  unfolding handle_status
  handle_status-finds_leader s t named_all idle r i j leads lt =
      let good = Reachable-IsGood S ((λ k on l. absurd (ground (arith, idle k))), named_all) r in
      let (e, held, le) = good.0 i leads lt in rw (held, lt→ltb t.now e (omega arith)) (good.1 i)
