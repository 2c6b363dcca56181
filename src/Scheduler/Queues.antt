-- ===== src/Scheduler/Queues.antt =====
-- The moves between the global and the pending queue.
use Prim.Native.String.{String}
use text.Mathlib.TextEquality.{eq_iff}
use go_flash_job.Base.{◌≡◌, refl, ap, ◌∙◌, false, Option, none, some, List, [], ◌∷◌, arith, ℤ}
use go_flash_job.Redis.{
  ZKey, global_queue, pending_queue, zkey_eq, find, Distinct, keep_in_range, Redis,
}
use go_flash_job.Redis.Laws.{zscore-zadd, zscore-zrem, hget-zadd, hget-zrem}
use go_flash_job.Scheduler.{flat_reply, parse_pairs, move_expired, fetch_expired}

-- The first of two scores that is there.
abbrev or_score : Option ℤ → Option ℤ → Option ℤ
or_score (some s) t = some s
or_score none t = t

-- The score of a member, unless the other is there.
abbrev pub unless : Option ℤ → Option ℤ → Option ℤ
unless (some s) t = none
unless none t = t

pub parse_pairs-flat_reply : (l : List (String × ℤ)) → parse_pairs (flat_reply l) ≡ l
unfolding parse_pairs
parse_pairs-flat_reply [] = refl
parse_pairs-flat_reply ((m, s) ∷ r) = ap (◌∷◌ (m, s)) (parse_pairs-flat_reply r)

module _ (R : Redis) where
  pub move_global :
      (l : List (String × ℤ)) (d : R.Db) (m : String)
      → R.zscore (move_expired R l d) global_queue m ≡ unless (find m l) (R.zscore d global_queue m)
  unfolding move_expired
  move_global [] d m = refl
  move_global ((j, s) ∷ r) d m = move_global r _ m ∙ rw (zscore-zrem, zscore-zadd) (ground arith)

  pub move_pending :
      (l : List (String × ℤ)) (d : R.Db) (m : String)
      → Distinct l
      → R.zscore (move_expired R l d) pending_queue m
        ≡ or_score (find m l) (R.zscore d pending_queue m)
  unfolding move_expired
  move_pending [] d m h = refl
  move_pending ((j, s) ∷ r) d m h =
      move_pending r _ m h.1 ∙ rw (zscore-zrem, zscore-zadd) (ground (arith, h.0, eq_iff j m))

  pub move_hashes : (l : List (String × ℤ)) (d : R.Db) → R.hget (move_expired R l d) ≡ R.hget d
  unfolding move_expired
  move_hashes [] d = refl
  move_hashes ((j, s) ∷ r) d = move_hashes r _ ∙ rw (hget-zrem, hget-zadd)

  pub move_other :
      (l : List (String × ℤ)) (d : R.Db) (k : ZKey) (m : String)
      → zkey_eq global_queue k ≡ false
      → zkey_eq pending_queue k ≡ false
      → R.zscore (move_expired R l d) k m ≡ R.zscore d k m
  unfolding move_expired
  move_other [] d k m g p = refl
  move_other ((j, s) ∷ r) d k m g p = move_other r _ k m g p ∙ rw (zscore-zrem, zscore-zadd, g, p)

  -- What the fetch script has done: the jobs of the global queue with a score from 0 to `top` are
  -- in the pending queue with that score and no longer in the global one; all other jobs, indexes
  -- and hashes are as they were. The reply holds exactly these jobs, each once.
  pub record Fetched (top : ℤ) (d : R.Db) (reply : List (String × ℤ)) (d' : R.Db) : Type 0 where
    pub global :
        (m : String)
        → R.zscore d' global_queue m
          ≡ unless
              (keep_in_range (some top) (R.zscore d global_queue m))
              (R.zscore d global_queue m)
    pub pending :
        (m : String)
        → R.zscore d' pending_queue m
          ≡ or_score
              (keep_in_range (some top) (R.zscore d global_queue m))
              (R.zscore d pending_queue m)
    pub replied : (m : String) → find m reply ≡ keep_in_range (some top) (R.zscore d global_queue m)
    pub distinct : Distinct reply
    pub others :
        (k : ZKey) (m : String)
        → zkey_eq global_queue k ≡ false
        → zkey_eq pending_queue k ≡ false
        → R.zscore d' k m ≡ R.zscore d k m
    pub hashes : R.hget d' ≡ R.hget d

  -- The fetch script moves the jobs of the global queue with a score from 0 to the bound to the
  -- pending queue, with their scores, and nothing else: every other entry and every hash is as
  -- it was, and the reply names exactly these jobs, each once.
  pub fetch_expired-Fetched :
      (top : ℤ) (d : R.Db)
      → Fetched top d (parse_pairs (fetch_expired R top d).0) (fetch_expired R top d).1
  unfolding fetch_expired
  fetch_expired-Fetched top d =
      let l = R.zrange d global_queue (some top) in
      let same = parse_pairs-flat_reply l in
      let found = R.find-zrange d global_queue (some top) in
      let once = R.zrange-Distinct d global_queue (some top) in
      record {
        global = λ m. move_global l d m ∙ rw (found m);
        pending = λ m. move_pending l d m once ∙ rw (found m);
        replied = λ m. rw same (found m);
        distinct = rw same once;
        others = λ k m g p. move_other l d k m g p;
        hashes = move_hashes l d;
      }
