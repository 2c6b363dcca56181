-- ===== src/Redis.antt =====
-- The Redis server, as the program uses it: a parameter with the documented effect of each command
-- on what can be read back. The server itself is not part of the repository.
--
-- A key of the program (pkg/consts/consts.go, pkg/model/detail.go) is a constructor here. The
-- formatted keys `prefix:id` are different texts for different ids and prefixes, as the
-- constructors are. A stored text is a `Value`: what it was made from, a text, a decimal number,
-- a status or the JSON of a task. Scores are whole numbers below 2^53, which a float64 holds.
pub mod World
pub mod Laws
pub mod Memory
use Prim.Native.String.{String}
use text.Mathlib.Text.{◌==◌ as str_eq}
use go_flash_job.Base.{
  [], ℕ, ◌≤◌, ◌<◌, ◌≡◌, ℤ, pos, Bool, false, ◌&&◌, List, ◌∷◌, Option, none, some, ◌==◌, leb_ℤ,
  if◌then◌else◌, length, ◌==ℤ◌,
}
use go_flash_job.Model.{Task, TaskStatus}

pub data ZKey : Type 0 where
  global_queue pending_queue dead_queue active_tasks terminal_tasks : ZKey

-- `task_state` is TaskStateKeyPrefix, `task_detail` is DetailKey.
pub data HKey : Type 0 where
  task_state task_detail dead_detail : String → HKey

-- dedupeKey
pub data SKey : Type 0 where
  exec_dedupe : String → ℤ → SKey

pub data Value : Type 0 where
  plain : String → Value
  int : ℤ → Value
  status : TaskStatus → Value
  json : Task → Value

abbrev pub zkey_number : ZKey → ℕ
zkey_number global_queue = 0
zkey_number pending_queue = 1
zkey_number dead_queue = 2
zkey_number active_tasks = 3
zkey_number terminal_tasks = 4

abbrev pub zkey_eq : ZKey → ZKey → Bool
zkey_eq k j = zkey_number k == zkey_number j

abbrev pub hkey_eq : HKey → HKey → Bool
hkey_eq (task_state i) (task_state j) = str_eq i j
hkey_eq (task_detail i) (task_detail j) = str_eq i j
hkey_eq (dead_detail i) (dead_detail j) = str_eq i j
hkey_eq _ _ = false

abbrev pub skey_eq : SKey → SKey → Bool
skey_eq (exec_dedupe i n) (exec_dedupe j m) = str_eq i j && n ==ℤ m

-- The score that a reply of ZRANGEBYSCORE gives to a member.
abbrev pub find : String → List (String × ℤ) → Option ℤ
find m [] = none
find m ((j, s) ∷ r) = if str_eq j m then some s else find m r

-- A reply names no member twice.
abbrev pub Distinct : List (String × ℤ) → Type 0
Distinct [] = Unit
Distinct ((j, s) ∷ r) = (find j r ≡ none) × Distinct r

-- The range `0 max` of ZRANGEBYSCORE; `none` is `+inf`.
abbrev pub in_range : Option ℤ → ℤ → Bool
in_range none s = leb_ℤ (pos 0) s
in_range (some top) s = leb_ℤ (pos 0) s && leb_ℤ s top

abbrev pub keep_in_range : Option ℤ → Option ℤ → Option ℤ
keep_in_range top none = none
keep_in_range top (some s) = if in_range top s then some s else none

pub record Redis : Type 1 where
  -- The content of the database, and what can be read from it.
  pub Db : Type 0
  pub zscore : Db → ZKey → String → Option ℤ
  pub hget : Db → HKey → String → Option Value
  -- When the string key expires, if it has been set.
  pub sget : Db → SKey → Option ℤ
  pub zrange : Db → ZKey → Option ℤ → List (String × ℤ)
  -- The same with LIMIT 0 count.
  pub zrange_limit : ℕ → Db → ZKey → Option ℤ → List (String × ℤ)
  -- The commands that write. `hset` sets one field; `del` is DEL of a hash; `set` is what SETNX
  -- does when the key is absent.
  pub zadd : ZKey → ℤ → String → Db → Db
  pub zrem : ZKey → String → Db → Db
  pub hset : HKey → String → Value → Db → Db
  pub del : HKey → Db → Db
  -- SET with the time at which the key expires; the value that is set is always 1.
  pub set : SKey → ℤ → Db → Db
  pub zscore-zadd :
      (d : Db) (k : ZKey) (s : ℤ) (m : String) (k' : ZKey) (m' : String)
      → zscore (zadd k s m d) k' m'
        ≡ (if zkey_eq k k' && str_eq m m' then some s else zscore d k' m')
  pub zscore-zrem :
      (d : Db) (k : ZKey) (m : String) (k' : ZKey) (m' : String)
      → zscore (zrem k m d) k' m' ≡ (if zkey_eq k k' && str_eq m m' then none else zscore d k' m')
  pub zscore-hset : (d : Db) (k : HKey) (f : String) (v : Value) → zscore (hset k f v d) ≡ zscore d
  pub zscore-del : (d : Db) (k : HKey) → zscore (del k d) ≡ zscore d
  pub zscore-set : (d : Db) (k : SKey) (e : ℤ) → zscore (set k e d) ≡ zscore d
  pub hget-hset :
      (d : Db) (k : HKey) (f : String) (v : Value) (k' : HKey) (f' : String)
      → hget (hset k f v d) k' f' ≡ (if hkey_eq k k' && str_eq f f' then some v else hget d k' f')
  pub hget-del :
      (d : Db) (k : HKey) (k' : HKey) (f' : String)
      → hget (del k d) k' f' ≡ (if hkey_eq k k' then none else hget d k' f')
  pub hget-zadd : (d : Db) (k : ZKey) (s : ℤ) (m : String) → hget (zadd k s m d) ≡ hget d
  pub hget-zrem : (d : Db) (k : ZKey) (m : String) → hget (zrem k m d) ≡ hget d
  pub hget-set : (d : Db) (k : SKey) (e : ℤ) → hget (set k e d) ≡ hget d
  pub sget-set :
      (d : Db) (k : SKey) (e : ℤ) (k' : SKey)
      → sget (set k e d) k' ≡ (if skey_eq k k' then some e else sget d k')
  pub sget-zadd : (d : Db) (k : ZKey) (s : ℤ) (m : String) → sget (zadd k s m d) ≡ sget d
  pub sget-zrem : (d : Db) (k : ZKey) (m : String) → sget (zrem k m d) ≡ sget d
  pub sget-hset : (d : Db) (k : HKey) (f : String) (v : Value) → sget (hset k f v d) ≡ sget d
  pub sget-del : (d : Db) (k : HKey) → sget (del k d) ≡ sget d
  -- ZRANGEBYSCORE gives each member in range once, with its score; LIMIT takes a part of that.
  pub find-zrange :
      (d : Db) (k : ZKey) (top : Option ℤ) (m : String)
      → find m (zrange d k top) ≡ keep_in_range top (zscore d k m)
  pub zrange-Distinct : (d : Db) (k : ZKey) (top : Option ℤ) → Distinct (zrange d k top)
  pub find-zrange_limit :
      (n : ℕ) (d : Db) (k : ZKey) (top : Option ℤ) (m : String) (s : ℤ)
      → find m (zrange_limit n d k top) ≡ some s
      → keep_in_range top (zscore d k m) ≡ some s
  pub zrange_limit-Distinct :
      (n : ℕ) (d : Db) (k : ZKey) (top : Option ℤ) → Distinct (zrange_limit n d k top)
  pub zrange_limit-short :
      (n : ℕ) (d : Db) (k : ZKey) (top : Option ℤ)
      → length (zrange_limit n d k top) < n
      → zrange_limit n d k top ≡ zrange d k top
  pub length-zrange_limit :
      (n : ℕ) (d : Db) (k : ZKey) (top : Option ℤ) → length (zrange_limit n d k top) ≤ n
