-- ===== src/Journey.antt =====
-- The whole way of a job through the program: service/job_service.go, core/scheduler.go and
-- core/p.go of the scheduler, and client/consumer.go of the executor, one after the other.
pub mod Steps
pub mod Submitted
pub mod Success
use go_flash_job.Base.{
  ℕ, zero, suc, ◌+◌, ◌-◌, ◌*◌, ◌/◌, ◌%◌, ◌^◌, ◌≤◌, ◌<◌, ◌≡◌, refl, sym, ap, ◌∙◌, ◌≢◌, ◌↔◌, ◌⊎◌, inl,
  inr, Bool, true, false, not, ◌&&◌, ◌||◌, Option, none, some, List, [], ◌∷◌, ◌++◌, map, Mem, Perm,
  arith, ltb, leb, ◌==◌, if◌then◌else◌, Bool-cases, Option-cases, length, get_or, set, take,
  length-append, length-set, length-perm, ℤ, pos, negsuc, pos_part, neg_part, ◌+ℤ◌, ◌-ℤ◌, ◌≤ℤ◌,
  ltb_ℤ, leb_ℤ, ◌==ℤ◌, +ℤ_parts, eq_of_parts, count, count-append, count-length, count-le,
  count-perm, one_if, ltb→lt, lt→ltb, leb→le, ==_iff,
}
use go_flash_job.Model.{Task, TaskCommand, message}
use go_flash_job.Redis.{Redis}
use go_flash_job.Redis.World.{
  Link, up, down, lost, Res, ok, err, head_link, tail_links, World, M, ret, fail_with,
  continue_with, ◌>>=◌, ◌>>◌, caught, attempt, ignore_error, call_on, call, write, read,
  current_time, send_mq_on, send_mq, send_kafka_on, send_kafka, call_keeps, bind_keeps,
  send_kafka-db,
}
use go_flash_job.Detail.{reread_payload}
use go_flash_job.Fsm.{Fsm}
use go_flash_job.Service.{submit_job}
use go_flash_job.Processor.{P, new_p, Decision, run_task, wait_wake, wait_seconds, run_round}
use go_flash_job.Scheduler.{fetch_round, execute_task, new_ps}
use go_flash_job.Executor.{Handled, Response, handle_task}

-- Four calls that get through, and those after them too.
abbrev pub four_up : List Link
four_up = up ∷ up ∷ up ∷ up ∷ []

-- What json.Unmarshal makes of the body of a message.
abbrev pub received : TaskCommand → TaskCommand
received c = record c { payload = reread_payload c.payload }

module _ (R : Redis) where
  -- The clock goes on, and the network is up.
  abbrev pub at_time : ℤ → List Link → M R (Unit {0})
  at_time now links w = (ok tt, record w { now = now; links = links })

  -- What Run does with its decision.
  abbrev pub run_decision : Fsm R → Decision × List P → M R P
  run_decision f (run_task t, ps) = execute_task R f 0 0 (get_or ps 0 (new_p 0)) t
  run_decision f (wait_wake, ps) = ret (get_or ps 0 (new_p 0))
  run_decision f (wait_seconds n, ps) = ret (get_or ps 0 (new_p 0))

  -- The last message that was published is delivered.
  abbrev pub deliver_to : (TaskCommand → Response) → List TaskCommand → M R Handled
  deliver_to http [] w = fail_with (message "no message") w
  deliver_to http (c ∷ r) w = handle_task R http 0 0 (pos 0) (received c) (record w { mq = r })

  abbrev pub deliver : (TaskCommand → Response) → M R Handled
  deliver http w = deliver_to http w.mq w

  -- A job is submitted; at the time `fetched` the scheduler has a round of fetcherLoop, with the
  -- processors as they start, at `run` the first processor has a round of Run, and at `taken` an
  -- executor gets the message.
  unfoldable pub life : (TaskCommand → Response) → Fsm R → Task → ℤ → ℤ → ℤ → M R Handled
  unfolding submit_job fetch_round run_round execute_task handle_task
  life http f t fetched run taken = do
    submit_job R t
    at_time fetched []
    ps ← fetch_round R f new_ps
    at_time run four_up
    run_decision f (run_round 0 run ps)
    at_time taken four_up
    deliver http
