-- ===== src/Tests/Leaders.antt =====
-- Runs of the leader election, on a lock in memory.
use Prim.Native.String.{String}
use text.Mathlib.Text.{◌==◌ as str_eq}
use text.Mathlib.TextEquality.{eq_iff}
use go_flash_job.Base.{
  ℕ, ◌≡◌, refl, true, false, Option, none, some, arith, ◌<◌, Bool-cases, inl, inr,
}
use go_flash_job.Redis.World.{up, Link}
use go_flash_job.Api.Status.{handle_status, handle_status-finds_leader}
use go_flash_job.Lifecycle.{StopOrder, renew_loop_first, stop_first, shut_down, wait_for_leadership}
use go_flash_job.Lifecycle.Stop.{shut_down-lock, wait_for_leadership-takes, IsTaken, ups}
use go_flash_job.Leader.{LockServer, LeaderElection, try_acquire, acquired, set_nx}
use go_flash_job.Leader.Lease.{System, Reachable, AreNamed, put, acquire, here, next}
use go_flash_job.Leader.One.{Reachable-one_leader}
use go_flash_job.Leader.Two.{taken_over, renews_after, two_leaders}

abbrev expire_at : ℕ → Option (String × ℕ) → Option (String × ℕ)
expire_at e none = none
expire_at e (some (v, e')) = some (v, e)

abbrev lock_memory : LockServer
lock_memory = record {
  Db = Option (String × ℕ);
  lock = λ d. d;
  set = λ v e d. some (v, e);
  del = λ d. none;
  expire = expire_at;
  lock-set = λ v e d. refl;
  lock-del = λ d. refl;
  lock-expire = λ e d v e' h. rw h;
}

abbrev idle : String → LeaderElection
idle i = record { instance_id = i; is_leader = false; until = 0 }

abbrev start_system : System lock_memory
start_system = record { now = 5; db = none; nodes = idle }

abbrev name_a : String
name_a = "a:8080"

abbrev name_b : String
name_b = "b:8080"

abbrev first_leads : System lock_memory
first_leads = put lock_memory start_system name_a (try_acquire lock_memory up 5 (idle name_a) none)

Reachable-one_leader_example : name_a ≡ name_a
unfolding try_acquire acquired set_nx
Reachable-one_leader_example =
    Reachable-one_leader lock_memory start_system first_leads (λ i. refl) (λ i. refl)
      (next here (acquire name_a up)) name_a name_a refl (omega arith) refl (omega arith)

first_leads-AreNamed : AreNamed lock_memory first_leads
unfolding try_acquire acquired set_nx
first_leads-AreNamed i = elim (Bool-cases (str_eq name_a i)) [
  | inl e ↦ rw e ((eq_iff name_a i).0 e)
  | inr e ↦ rw e refl
]

two_leaders_example :
    let t = taken_over lock_memory first_leads name_b 10 in
    let u = renews_after lock_memory t name_a 3 up in
    Reachable lock_memory first_leads t
    × ((t.nodes name_a).is_leader ≡ true)
    × ((t.nodes name_b).is_leader ≡ true)
    × (t.db ≡ some (name_b, 25))
    × Reachable lock_memory t u
    × ((u.nodes name_a).is_leader ≡ false)
    × ((u.nodes name_b).is_leader ≡ true)
    × (u.db ≡ some (name_b, 25))
unfolding try_acquire acquired set_nx
two_leaders_example =
    two_leaders lock_memory first_leads name_a name_b 15 10 3 up
      (λ q. let same : false ≡ true = (eq_iff name_a name_b).1 q in cc) first_leads-AreNamed refl
      refl (omega arith) (omega arith)

handle_status-finds_leader_example :
    (handle_status lock_memory up 5 (first_leads.nodes name_b) first_leads.db).leader_id ≡ name_a
unfolding try_acquire acquired set_nx
handle_status-finds_leader_example =
    handle_status-finds_leader lock_memory start_system first_leads (λ i. refl) (λ i. refl)
      (next here (acquire name_a up)) name_a name_b refl (omega arith)

-- The first scheduler leads until 15 and is stopped at 6.
shut_down-lock_example :
    let stops = shut_down lock_memory in
    let n = first_leads.nodes name_a in
    ((o : StopOrder) (l : Link) → (stops o l 6 n first_leads.db).0.is_leader ≡ false)
    × (lock_memory.lock (stops stop_first up 6 n first_leads.db).1 ≡ none)
    × ((l : Link) (later : ℕ) (m : LeaderElection)
        → later < 15
        → try_acquire lock_memory up later m (stops renew_loop_first l 6 n first_leads.db).1
          ≡ (m, first_leads.db))
unfolding try_acquire acquired set_nx
shut_down-lock_example =
    shut_down-lock lock_memory 6 (first_leads.nodes name_a) first_leads.db 15 refl refl
      (omega arith)

-- The second one waits from 7 on.
wait_for_leadership-takes_example :
    IsTaken lock_memory
      (idle name_b)
      7
      15
      (wait_for_leadership lock_memory (ups 9) 7 (idle name_b) first_leads.db)
unfolding try_acquire acquired set_nx
wait_for_leadership-takes_example =
    wait_for_leadership-takes lock_memory 8 7 (idle name_b) first_leads.db name_a 15 refl refl
      (omega arith)
