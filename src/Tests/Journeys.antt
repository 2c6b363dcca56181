-- ===== src/Tests/Journeys.antt =====
-- A job on its whole way, with another one that is not due, and a round of the fetcher over two.
use go_flash_job.Base.{◌≡◌, refl, inl, inr, none, some, [], ◌∷◌, Bool-cases, length, pos, ◌+ℤ◌}
use go_flash_job.Model.{Task, TaskCommand, pending, ready, success}
use go_flash_job.Redis.{
  HKey, json, status, global_queue, pending_queue, active_tasks, terminal_tasks,
}
use go_flash_job.Redis.World.{up, Res, ok, World}
use go_flash_job.Redis.Memory.{memory, empty_db}
use go_flash_job.Status.{status_field, set_status}
use go_flash_job.Fsm.{new_fsm}
use go_flash_job.Fsm.Up.{online}
use go_flash_job.Scheduler.{fetch_expired, fetch_round}
use go_flash_job.Scheduler.Dispatch.{AllHave}
use go_flash_job.Scheduler.Dealt.{Gets, fetch_round-deals}
use Prim.Native.Nat.{ℕ}
use go_flash_job.Base.{arith}
use go_flash_job.Processor.Steal.{IsOrdered}
use go_flash_job.Processor.{P, new_p}
use go_flash_job.Service.{with_defaults, trigger_at, refused}
use go_flash_job.Executor.{Handled, Response, code, acked}
use go_flash_job.Journey.{life}
use go_flash_job.Journey.Submitted.{IsAlone}
use go_flash_job.Journey.Success.{life-succeeds}
use go_flash_job.Tests.Samples.{task_a, task_b, at}
use text.Mathlib.Text.{◌==◌ as str_eq}
use Prim.Native.String.{String}

abbrev works : TaskCommand → Response
works c = code 200

-- In ten seconds, without a payload.
abbrev soon : Task
soon = record task_a { trigger_time = pos 10; payload = "" }

unfoldable later_db : memory.Db
unfolding memory empty_db
later_db = memory.zadd global_queue (pos 9000) "b" empty_db

abbrev begin : World memory
begin = at later_db (up ∷ [])

soon-IsAlone : IsAlone memory soon begin (pos 159)
unfolding memory empty_db later_db ◌+ℤ◌
soon-IsAlone m other = elim (Bool-cases (str_eq "b" m)) [ inl e ↦ rw e refl | inr e ↦ rw e refl ]

abbrev whole : Res Handled × World memory
whole = life memory works (new_fsm memory) soon (pos 159) (pos 160) (pos 161) begin

life-succeeds_example :
    (whole.0
      ≡ ok (record {
        answer = acked;
        called = some (record {
          id = "a";
          name = "report";
          callback_url = "http://host/a";
          trigger_time = pos 160;
          priority = "High";
          retry_count = pos 0;
          max_retry = pos 3;
          timeout = pos 30;
          payload = "null";
        });
      }))
    × (status_field memory whole.1.db "a" ≡ some (status success))
    × (memory.zscore whole.1.db active_tasks "a" ≡ none)
    × (memory.zscore whole.1.db terminal_tasks "a" ≡ some (pos 161))
    × (memory.zscore whole.1.db global_queue "a" ≡ none)
    × (memory.zscore whole.1.db pending_queue "a" ≡ none)
    × (length whole.1.kafka ≡ 1)
unfolding memory empty_db later_db with_defaults trigger_at refused new_fsm
life-succeeds_example =
    life-succeeds memory works (new_fsm memory) refl refl refl soon begin (pos 159) (pos 160)
      (pos 161) refl soon-IsAlone refl refl refl refl [] refl

-- Two jobs are due.
unfoldable two_db : memory.Db
unfolding memory empty_db
two_db = memory.zadd global_queue (pos 100) "a" (
    memory.zadd global_queue (pos 120) "b" (
      memory.hset (HKey.task_detail "a") "data" (json task_a) (
        memory.hset (HKey.task_detail "b") "data" (json task_b) (
          set_status memory task_a pending (pos 90)
            (set_status memory task_b pending (pos 90) empty_db)))))

new_p-IsOrdered : (n : ℕ) → IsOrdered (new_p n)
unfolding new_p
new_p-IsOrdered n c p q = absurd (omega arith)

abbrev job_a : Task
job_a = task_a

abbrev job_b : Task
job_b = record task_b { trigger_time = pos 120 }

fetch_round-deals_example :
    let r = fetch_round memory (new_fsm memory) (new_p 0 ∷ new_p 1 ∷ []) (online (at two_db [])) in
    let moved = (fetch_expired memory (pos 151) two_db).1 in
    ((p' : P) × (q' : P) × (r.0 ≡ ok (p' ∷ q' ∷ []))
      × Gets (job_a ∷ []) (new_p 0) p'
      × Gets (job_b ∷ []) (new_p 1) q')
    × AllHave memory ready r.1.db (job_a ∷ job_b ∷ [])
    × ((m : String) → memory.zscore r.1.db global_queue m ≡ memory.zscore moved global_queue m)
    × ((m : String) → memory.zscore r.1.db pending_queue m ≡ memory.zscore moved pending_queue m)
unfolding memory empty_db two_db set_status new_fsm new_p ◌+ℤ◌
fetch_round-deals_example =
    fetch_round-deals memory (new_fsm memory) refl refl (new_p 0) (new_p 1) (at two_db [])
      (new_p-IsOrdered 0) (new_p-IsOrdered 1) (refl, (refl, tt)) ((refl, tt), (tt, tt))
