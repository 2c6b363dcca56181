-- ===== src/Api/Dead.antt =====
-- ListDeadJobs of scheduler/internal/service/job_service.go, and HandleListDead and HandleStatus
-- of scheduler/internal/api/job_handler.go. ZREVRANGE and HGETALL are parameters.
use Prim.Native.String.{String}
use text.Mathlib.Text.{◌==◌ as str_eq}
use go_flash_job.Base.{
  ◌⊎◌, inl, inr, negsuc, ◌≡◌, refl, ap, ◌∙◌, Bool, true, false, ◌||◌, Option, none, some, List, [],
  ◌∷◌, ◌==◌, if◌then◌else◌, length, ℤ, pos, length-not_zero,
}
use mathlib.Core.Path.{subst}
use go_flash_job.Model.{Task, network}
use go_flash_job.Redis.{ZKey, dead_queue, HKey, Value, plain, int, Redis}
use go_flash_job.Redis.World.{Link, up, down, Res, ok, err, World, M, ret, ◌>>=◌, attempt, read}
use go_flash_job.Redis.Laws.{reads_at}
use go_flash_job.Fsm.{save_dead_task}

abbrev pub Fields : Type 0
Fields = List (String × Value)

abbrev pub lookup : String → Fields → Option Value
lookup f [] = none
lookup f ((g, v) ∷ r) = if str_eq g f then some v else lookup f r

-- The list has the element.
abbrev pub IsIn : {A : Type 0} → A → List A → Type 0
IsIn a [] = ⊥
IsIn a (x ∷ r) = (a ≡ x) ⊎ IsIn a r

-- One entry of the list: `missing` has the id and the text `detail missing`.
pub data DeadItem : Type 0 where
  missing : String → DeadItem
  detail : Fields → DeadItem

-- The copy of the fields of the hash, with the id of the queue.
unfoldable pub item_of : String → Fields → DeadItem
item_of id [] = missing id
item_of id (x ∷ r) = detail (("id", plain id) ∷ x ∷ r)

unfoldable pub items_of : List String → List Fields → List DeadItem
unfolding item_of
items_of (id ∷ ids) (f ∷ fs) = item_of id f ∷ items_of ids fs
items_of _ _ = []

unfoldable pub all_missing : List String → List DeadItem
all_missing [] = []
all_missing (id ∷ r) = missing id ∷ all_missing r

-- The fields that SaveDeadTask writes.
abbrev pub dead_fields : List String
dead_fields = "id" ∷ "name" ∷ "callback_url" ∷ "retry_count" ∷ "error" ∷ "dead_at" ∷ []

abbrev pub is_in : String → List String → Bool
is_in f [] = false
is_in f (g ∷ r) = str_eq g f || is_in f r

abbrev or_zero : Option ℤ → ℤ
or_zero none = pos 0
or_zero (some n) = n

module _ (R : Redis) (zrevrange : R.Db → ZKey → ℤ → ℤ → List String)
    (hgetall : R.Db → HKey → Fields) where
  abbrev pub details : List String → R.Db → List Fields
  details [] d = []
  details (id ∷ r) d = hgetall d (HKey.dead_detail id) ∷ details r d

  abbrev or_missing : List String → Res (List Fields) → List DeadItem
  or_missing ids (ok fs) = items_of ids fs
  or_missing ids (err e) = all_missing ids

  -- ListDeadJobs
  unfoldable pub list_dead_jobs : ℤ → ℤ → M R (List DeadItem)
  unfolding items_of all_missing
  list_dead_jobs start stop = do
    ids ← read (λ d. zrevrange d dead_queue start stop)
    if length ids == 0
        then ret []
        else (attempt (read (details ids)) >>= λ fs. ret (or_missing ids fs))

  -- HandleListDead, over strconv.ParseInt of the two parameters: a text that is no number gives 0.
  unfoldable pub handle_list_dead : Option ℤ → Option ℤ → M R (Res (List DeadItem))
  unfolding list_dead_jobs
  handle_list_dead start stop = attempt (list_dead_jobs (or_zero start) (or_zero stop))

  -- What the list shows for some ids.
  abbrev pub shown : List String → R.Db → List DeadItem
  shown [] d = []
  shown (id ∷ r) d = item_of id (hgetall d (HKey.dead_detail id)) ∷ shown r d

  items_of-details : (ids : List String) (d : R.Db) → items_of ids (details ids d) ≡ shown ids d
  unfolding items_of item_of
  items_of-details [] d = refl
  items_of-details (id ∷ r) d =
      ap (◌∷◌ (item_of id (hgetall d (HKey.dead_detail id)))) (items_of-details r d)

  list_dead_jobs_up :
      (start stop : ℤ) (w : World R) (ids : List String)
      → zrevrange w.db dead_queue start stop ≡ ids
      → w.links ≡ []
      → (list_dead_jobs start stop w).0 ≡ ok (shown ids w.db)
  unfolding list_dead_jobs
  list_dead_jobs_up start stop w [] found on = rw (on, found) refl
  list_dead_jobs_up start stop w (id ∷ r) found on =
      rw (on, found, length-not_zero id r) (ap ok (items_of-details (id ∷ r) w.db))

  list_dead_jobs_lost :
      (start stop : ℤ) (w : World R) (ids : List String) (l : List Link)
      → zrevrange w.db dead_queue start stop ≡ ids
      → w.links ≡ up ∷ down ∷ l
      → (list_dead_jobs start stop w).0 ≡ ok (all_missing ids)
  unfolding list_dead_jobs all_missing
  list_dead_jobs_lost start stop w [] l found on = rw (on, found) refl
  list_dead_jobs_lost start stop w (id ∷ r) l found on = rw (on, found, length-not_zero id r) refl

  -- ListDeadJobs gives one item for each id of the range, in its order: the fields of its hash, or
  -- `detail missing` for an empty hash; when the pipeline that reads the hashes fails, every item
  -- is `detail missing`, and it is an error only when the ids cannot be read.
  pub list_dead_jobs-items :
      (start stop : ℤ) (w : World R) (l : List Link)
      → let ids = zrevrange w.db dead_queue start stop in
        (w.links ≡ [] → (list_dead_jobs start stop w).0 ≡ ok (shown ids w.db))
        × (w.links ≡ up ∷ down ∷ l → (list_dead_jobs start stop w).0 ≡ ok (all_missing ids))
        × (w.links ≡ down ∷ l → (list_dead_jobs start stop w).0 ≡ err network)
  unfolding list_dead_jobs
  list_dead_jobs-items start stop w l = (
    list_dead_jobs_up start stop w (zrevrange w.db dead_queue start stop) refl,
    list_dead_jobs_lost start stop w (zrevrange w.db dead_queue start stop) l refl,
    λ off. rw off refl,
  )

  module _
      (hgetall-hget : (d : R.Db) (k : HKey) (f : String)
        → is_in f dead_fields ≡ true
        → lookup f (hgetall d k) ≡ R.hget d k f)
      (zrevrange-all : (d : R.Db) (k : ZKey) (m : String) (s : ℤ)
        → R.zscore d k m ≡ some s
        → IsIn m (zrevrange d k (pos 0) (negsuc 0))) where
    -- The fields of a dead task.
    record IsSaved (t : Task) (msg : String) (now : ℤ) (fs : Fields) : Type 0 where
      pub name : lookup "name" fs ≡ some (plain t.name)
      pub callback_url : lookup "callback_url" fs ≡ some (plain t.callback_url)
      pub retry_count : lookup "retry_count" fs ≡ some (int t.retry_count)
      pub error : lookup "error" fs ≡ some (plain msg)
      pub dead_at : lookup "dead_at" fs ≡ some (int now)

    saved :
        (t : Task) (msg : String) (w : World R)
        → w.links ≡ []
        → IsSaved t msg w.now (hgetall (save_dead_task R t msg w).1.db (HKey.dead_detail t.id))
    unfolding save_dead_task
    saved t msg w on = record {
      name = hgetall-hget _ (HKey.dead_detail t.id) "name" refl ∙ rw on (simp reads_at);
      callback_url =
          hgetall-hget _ (HKey.dead_detail t.id) "callback_url" refl ∙ rw on (simp reads_at);
      retry_count =
          hgetall-hget _ (HKey.dead_detail t.id) "retry_count" refl ∙ rw on (simp reads_at);
      error = hgetall-hget _ (HKey.dead_detail t.id) "error" refl ∙ rw on (simp reads_at);
      dead_at = hgetall-hget _ (HKey.dead_detail t.id) "dead_at" refl ∙ rw on (simp reads_at);
    }

    item_of-detail :
        (id : String) (fs : Fields) (v : Value)
        → lookup "name" fs ≡ some v
        → item_of id fs ≡ detail (("id", plain id) ∷ fs)
    unfolding item_of
    item_of-detail id [] v h = absurd cc
    item_of-detail id (x ∷ r) v h = refl

    shown-IsIn :
        (ids : List String) (d : R.Db) (id : String)
        → IsIn id ids
        → IsIn (item_of id (hgetall d (HKey.dead_detail id))) (shown ids d)
    shown-IsIn [] d id m = absurd m
    shown-IsIn (x ∷ r) d id (inl e) = inl (ap (λ i. item_of i (hgetall d (HKey.dead_detail i))) e)
    shown-IsIn (x ∷ r) d id (inr m) = inr (shown-IsIn r d id m)

    -- With the network up, what SaveDeadTask writes is what ListDeadJobs shows: the list from 0 to
    -- -1 has an item for the task, with its id, and that item has its name, its callback, its
    -- retries, the error and the time of its death. ZREVRANGE from 0 to -1 gives every member.
    pub save_dead_task-listed :
        (t : Task) (msg : String) (w : World R)
        → w.links ≡ []
        → let w' = (save_dead_task R t msg w).1 in
          let fs = hgetall w'.db (HKey.dead_detail t.id) in
          ((items : List DeadItem) × ((list_dead_jobs (pos 0) (negsuc 0) w').0 ≡ ok items)
            × IsIn (detail (("id", plain t.id) ∷ fs)) items)
          × (lookup "name" fs ≡ some (plain t.name))
          × (lookup "callback_url" fs ≡ some (plain t.callback_url))
          × (lookup "retry_count" fs ≡ some (int t.retry_count))
          × (lookup "error" fs ≡ some (plain msg))
          × (lookup "dead_at" fs ≡ some (int w.now))
    unfolding save_dead_task
    save_dead_task-listed t msg w on =
        let is = saved t msg w on in
        let w' = (save_dead_task R t msg w).1 in
        let ids = zrevrange w'.db dead_queue (pos 0) (negsuc 0) in
        let item =
          item_of-detail t.id (hgetall w'.db (HKey.dead_detail t.id)) (plain t.name) is.name in
        let queued : R.zscore w'.db dead_queue t.id ≡ some w.now = rw on (simp reads_at) in
        let listed = shown-IsIn ids w'.db t.id (zrevrange-all w'.db dead_queue t.id w.now queued) in
        (
          (
            shown ids w'.db,
            list_dead_jobs_up (pos 0) (negsuc 0) w' ids refl (rw on refl),
            subst (λ (x : DeadItem). IsIn x (shown ids w'.db)) item listed,
          ),
          is.name,
          is.callback_url,
          is.retry_count,
          is.error,
          is.dead_at,
        )
