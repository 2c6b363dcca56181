-- ===== src/Scheduler/Dealt.antt =====
-- core/scheduler.go of the scheduler: which task a round of fetcherLoop gives to which processor.
use Prim.Native.String.{String}
use text.Mathlib.Text.{◌==◌ as str_eq}
use go_flash_job.Base.{
  ℕ, suc, ◌+◌, ◌%◌, ◌≡◌, refl, ap, ◌∙◌, inl, inr, Bool, true, false, not, ◌&&◌, Option, none, some,
  List, [], ◌∷◌, ◌++◌, map, arith, if◌then◌else◌, Bool-cases, ℤ, pos, ◌+ℤ◌, ◌-ℤ◌, ltb_ℤ, count,
  count-perm,
}
use mathlib.Core.Path.{subst}
use go_flash_job.Model.{pending, ready, Task}
use go_flash_job.Redis.{global_queue, pending_queue, Value, plain, int, status, json, Redis}
use go_flash_job.Redis.World.{ok, World}
use go_flash_job.Detail.{detail_field, reread}
use go_flash_job.Heap.Correct.{push-IsHeap}
use go_flash_job.TaskHeap.{task_order}
use go_flash_job.Fsm.{Fsm, legal_transitions}
use go_flash_job.Fsm.Up.{online}
use go_flash_job.Processor.{P, push}
use go_flash_job.Processor.Steal.{IsOrdered}
use go_flash_job.Scheduler.{
  preload_window, is_aged, age, placed, move_expired, fetch_expired, load_tasks, fetch_round,
}
use go_flash_job.Scheduler.Placed.{
  place_all, DistinctIds, aged_db, due_tasks, round_db, fetch_round-runs,
}
use go_flash_job.Scheduler.Dispatch.{AllHave}
use go_flash_job.Scheduler.Left.{all_ready-AllHave, round_db-queue}

-- The job that a member of the queue with such a detail stands for: its data, due at its score, with
-- priority High if it has been there with Low for more than 300 seconds.
abbrev pub job_of : ℤ → ℤ → Option Value → List Task
job_of now s (some (json t)) =
    (record {
      id = t.id;
      name = t.name;
      callback_url = t.callback_url;
      trigger_time = s;
      priority =
          if str_eq t.priority "Low"
            && ltb_ℤ (pos 0) t.enqueue_at
            && ltb_ℤ (pos 300) (now -ℤ t.enqueue_at)
          then "High"
          else t.priority;
      retry_count = t.retry_count;
      max_retry = t.max_retry;
      timeout = t.timeout;
      payload = if str_eq t.payload "" then "null" else t.payload;
      enqueue_at = t.enqueue_at;
    })
    ∷ []
job_of now s _ = []

abbrev pub jobs_of : ℤ → (String → Option Value) → List (String × ℤ) → List Task
jobs_of now data_of [] = []
jobs_of now data_of ((m, s) ∷ r) = job_of now s (data_of m) ++ jobs_of now data_of r

pub age_priority :
    (now : ℤ) (t : Task)
    → age now t ≡ record t { priority = if is_aged now t then "High" else t.priority }
unfolding age
age_priority now t = elim (Bool-cases (is_aged now t)) [ inl e ↦ rw e refl | inr e ↦ rw e refl ]

-- Every second task, from the first one on or from the second one on.
abbrev pub every_second : Bool → List Task → List Task
every_second b [] = []
every_second true (t ∷ r) = t ∷ every_second false r
every_second false (t ∷ r) = every_second true r

aged_job :
    (now s : ℤ) (t : Task) (rest : List Task)
    → age now (record (reread t) { trigger_time = s }) ∷ rest ≡ job_of now s (some (json t)) ++ rest
aged_job now s t rest =
    ap (λ u. u ∷ rest) (age_priority now (record (reread t) { trigger_time = s }))

module _ (R : Redis) where
  one_job :
      (now s : ℤ) (g : String → Option Value) (m : String) (r : List (String × ℤ))
      (v : Option Value)
      → g m ≡ v
      → map (age now) (load_tasks R g ((m, s) ∷ r))
        ≡ job_of now s v ++ map (age now) (load_tasks R g r)
  unfolding load_tasks
  one_job now s g m r none e = rw (e, load_tasks) refl
  one_job now s g m r (some (plain x)) e = rw (e, load_tasks) refl
  one_job now s g m r (some (int x)) e = rw (e, load_tasks) refl
  one_job now s g m r (some (status x)) e = rw (e, load_tasks) refl
  one_job now s g m r (some (json t)) e = rw (e, load_tasks) (aged_job now s t _)

  loaded_jobs :
      (now : ℤ) (g : String → Option Value) (l : List (String × ℤ))
      → map (age now) (load_tasks R g l) ≡ jobs_of now g l
  unfolding load_tasks
  loaded_jobs now g [] = refl
  loaded_jobs now g ((m, s) ∷ r) =
      one_job now s g m r (g m) refl ∙ ap (λ l. job_of now s (g m) ++ l) (loaded_jobs now g r)

-- The processor `q` is `p` with some more tasks, its queue a heap.
abbrev pub Gets : List Task → P → P → Type 0
Gets ts p q =
    IsOrdered q
    × ((test : Task → Bool) → count test q.local_queue ≡ count test ts + count test p.local_queue)

push-Gets :
    (t : Task) (ts : List Task) (p q : P) → IsOrdered p → Gets ts (push t p) q → Gets (t ∷ ts) p q
unfolding push
push-Gets t ts p q h (o, counts) = (
  o,
  λ test. omega (arith, counts test, count-perm test (push-IsHeap task_order p.local_queue t h).1),
)

pushed-IsOrdered : (t : Task) (p : P) → IsOrdered p → IsOrdered (push t p)
unfolding push
pushed-IsOrdered t p h = (push-IsHeap task_order p.local_queue t h).0

even_turn :
    (i : ℕ) (t : Task) (p q : P) → i % 2 ≡ 0 → placed i t (ok tt) (p ∷ q ∷ []) ≡ push t p ∷ q ∷ []
unfolding placed
even_turn i t p q h = rw (placed, h) refl

odd_turn :
    (i : ℕ) (t : Task) (p q : P) → i % 2 ≡ 1 → placed i t (ok tt) (p ∷ q ∷ []) ≡ p ∷ push t q ∷ []
unfolding placed
odd_turn i t p q h = rw (placed, h) refl

place_all-deals :
    (b : Bool) (i : ℕ) (ts : List Task) (p q : P)
    → i % 2 ≡ (if b then 0 else 1)
    → IsOrdered p
    → IsOrdered q
    → (p' : P) × (q' : P) × (place_all i ts (p ∷ q ∷ []) ≡ p' ∷ q' ∷ [])
      × Gets (every_second b ts) p p'
      × Gets (every_second (not b) ts) q q'
place_all-deals b i [] p q even h k =
    (p, q, refl, (h, λ test. omega arith), (k, λ test. omega arith))
place_all-deals true i (t ∷ r) p q even h k =
    let (p', q', done, gets, gets') =
      place_all-deals false (suc i) r (push t p) q (omega arith) (pushed-IsOrdered t p h) k in
    (
      p',
      q',
      ap (place_all (suc i) r) (even_turn i t p q even) ∙ done,
      push-Gets t (every_second false r) p p' h gets,
      gets',
    )
place_all-deals false i (t ∷ r) p q odd h k =
    let (p', q', done, gets, gets') =
      place_all-deals true (suc i) r p (push t q) (omega arith) h (pushed-IsOrdered t q k) in
    (
      p',
      q',
      ap (place_all (suc i) r) (odd_turn i t p q odd) ∙ done,
      gets,
      push-Gets t (every_second false r) q q' k gets',
    )

module _ (R : Redis) (f : Fsm R) (legal : f.transitions ≡ legal_transitions)
    (quiet : f.hooks ready ≡ []) where
  -- With the legal table, no hook on READY and the network up, a round of fetcherLoop over due
  -- jobs that are PENDING and have different ids, with the scheduler's two processors: each due
  -- job that has its details is dealt out, the first, third, and so on to the first processor
  -- and the others to the second, with its data, due at its score and with priority High if it has
  -- waited too long; nothing else comes into the queues of the processors, which stay heaps. Each
  -- job is READY then, and the queues in Redis are as the fetch script leaves them.
  pub fetch_round-deals :
      (p q : P) (w : World R)
      → let l = R.zrange w.db global_queue (some (w.now +ℤ pos 1)) in
        let ts = jobs_of w.now (λ m. detail_field R w.db m) l in
        IsOrdered p
        → IsOrdered q
        → AllHave R pending w.db ts
        → DistinctIds ts
        → let r = fetch_round R f (p ∷ q ∷ []) (online w) in
          let moved = (fetch_expired R (w.now +ℤ pos 1) w.db).1 in
          ((p' : P) × (q' : P) × (r.0 ≡ ok (p' ∷ q' ∷ []))
            × Gets (every_second true ts) p p'
            × Gets (every_second false ts) q q')
          × AllHave R ready r.1.db ts
          × ((m : String) → R.zscore r.1.db global_queue m ≡ R.zscore moved global_queue m)
          × ((m : String) → R.zscore r.1.db pending_queue m ≡ R.zscore moved pending_queue m)
  fetch_round-deals p q w h k have distinct =
      let l = R.zrange w.db global_queue (some (w.now +ℤ preload_window)) in
      let ts = due_tasks R w.db l in
      let moved = move_expired R l w.db in
      let same : map (age w.now) ts ≡ jobs_of w.now (λ m. detail_field R w.db m) l =
        loaded_jobs R w.now (λ m. detail_field R w.db m) l in
      let runs =
        fetch_round-runs R f legal quiet (p ∷ q ∷ []) w (rw same have) (rw same distinct) in
      let jobs = jobs_of w.now (λ m. detail_field R w.db m) l in
      let (p', q', done, gets, gets') = place_all-deals true 0 jobs p q refl h k in
      let out = round_db R w.now w.db in
      let all = all_ready-AllHave R w.now (map (age w.now) ts) (aged_db R w.now ts moved) in
      rw runs (
        (p', q', ap ok (ap (λ ts. place_all 0 ts (p ∷ q ∷ [])) same ∙ done), gets, gets'),
        subst (λ (ts : List Task). AllHave R ready out ts) same all,
        λ m. round_db-queue R w.now w.db global_queue m refl,
        λ m. round_db-queue R w.now w.db pending_queue m refl,
      )
