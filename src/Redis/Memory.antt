-- ===== src/Redis/Memory.antt =====
-- A server in memory, which shows that the laws of the interface can hold.
use Prim.Native.String.{String}
use text.Mathlib.Text.{◌==◌ as str_eq}
use text.Mathlib.TextEquality.{eq_iff}
use text.Mathlib.TextPositions.{eq_refl}
use go_flash_job.Base.{
  ℕ, zero, suc, ◌<◌, ◌≤◌, ◌≡◌, refl, ap, sym, ◌∙◌, ℤ, Bool, ◌&&◌, List, [], ◌∷◌, Option, none, some,
  arith, if◌then◌else◌, length, take, sym,
}
use go_flash_job.Redis.{
  Redis, ZKey, HKey, SKey, Value, zkey_eq, hkey_eq, skey_eq, find, Distinct, in_range,
  keep_in_range,
}

abbrev pub Scores : Type 0
Scores = List (String × ℤ)

pub remove : String → Scores → Scores
remove m [] = []
remove m ((j, s) ∷ r) = if str_eq j m then remove m r else (j, s) ∷ remove m r

find-remove :
    (m j : String) (l : Scores) → find j (remove m l) ≡ (if str_eq m j then none else find j l)
unfolding remove
find-remove m j [] = ground arith
find-remove m j ((i, s) ∷ r) = ground (arith, find-remove m j r, eq_iff i m, eq_iff i j, eq_iff m j)

remove-Distinct : (m : String) (l : Scores) → Distinct l → Distinct (remove m l)
unfolding remove
remove-Distinct m [] h = tt
remove-Distinct m ((i, s) ∷ r) h = ground (arith, remove-Distinct m r h.1, find-remove m i r, h.0)

-- The first score of each member.
pub firsts : Scores → Scores
firsts [] = []
firsts ((j, s) ∷ r) = (j, s) ∷ remove j (firsts r)

pub find-firsts : (m : String) (l : Scores) → find m (firsts l) ≡ find m l
unfolding firsts
find-firsts m [] = refl
find-firsts m ((j, s) ∷ r) = ground (arith, find-firsts m r, find-remove j m (firsts r))

firsts-Distinct : (l : Scores) → Distinct (firsts l)
unfolding firsts
firsts-Distinct [] = tt
firsts-Distinct ((j, s) ∷ r) =
    (rw (find-remove, eq_refl), remove-Distinct j (firsts r) (firsts-Distinct r))

select : Option ℤ → Scores → Scores
select top [] = []
select top ((j, s) ∷ r) = if in_range top s then (j, s) ∷ select top r else select top r

find-select-none :
    (top : Option ℤ) (m : String) (l : Scores) → find m l ≡ none → find m (select top l) ≡ none
unfolding select
find-select-none top m [] h = refl
find-select-none top m ((j, s) ∷ r) h = ground (arith, find-select-none top m r)

find-select :
    (top : Option ℤ) (m : String) (l : Scores)
    → Distinct l
    → find m (select top l) ≡ keep_in_range top (find m l)
unfolding select
find-select top m [] h = refl
find-select top m ((j, s) ∷ r) h =
    ground (arith, find-select top m r h.1, find-select-none top j r h.0, eq_iff j m)

select-Distinct : (top : Option ℤ) (l : Scores) → Distinct l → Distinct (select top l)
unfolding select
select-Distinct top [] h = tt
select-Distinct top ((j, s) ∷ r) h =
    ground (arith, select-Distinct top r h.1, find-select-none top j r h.0)

pub find-take :
    (n : ℕ) (m : String) (l : Scores) (s : ℤ) → find m (take n l) ≡ some s → find m l ≡ some s
find-take zero m l s h = cc
find-take (suc n) m [] s h = h
find-take (suc n) m ((j, t) ∷ r) s h = ground (arith, find-take n m r s)

find-take-none : (n : ℕ) (m : String) (l : Scores) → find m l ≡ none → find m (take n l) ≡ none
find-take-none zero m l h = refl
find-take-none (suc n) m [] h = refl
find-take-none (suc n) m ((j, t) ∷ r) h = ground (arith, find-take-none n m r)

pub take-Distinct : (n : ℕ) (l : Scores) → Distinct l → Distinct (take n l)
take-Distinct zero l h = tt
take-Distinct (suc n) [] h = tt
take-Distinct (suc n) ((j, t) ∷ r) h = (find-take-none n j r h.0, take-Distinct n r h.1)

pub take-short : (n : ℕ) (l : Scores) → length (take n l) < n → take n l ≡ l
take-short zero l h = absurd (omega arith)
take-short (suc n) [] h = refl
take-short (suc n) (x ∷ r) h = ap (◌∷◌ x) (take-short n r (omega arith))

pub length-take-le : (n : ℕ) (l : Scores) → length (take n l) ≤ n
length-take-le zero l = omega arith
length-take-le (suc n) [] = omega arith
length-take-le (suc n) (x ∷ r) = omega (arith, length-take-le n r)

pub record Tables : Type 0 where
  pub scores : ZKey → Scores
  pub fields : HKey → String → Option Value
  pub strings : SKey → Option ℤ

pub zrange : Tables → ZKey → Option ℤ → Scores
unfolding select firsts remove
zrange d k top = select top (firsts (d.scores k))

pub find-zrange :
    (d : Tables) (k : ZKey) (top : Option ℤ) (m : String)
    → find m (zrange d k top) ≡ keep_in_range top (find m (d.scores k))
unfolding zrange
find-zrange d k top m =
    find-select top m (firsts (d.scores k)) (firsts-Distinct (d.scores k))
    ∙ ap (keep_in_range top) (find-firsts m (d.scores k))

pub zrange-Distinct : (d : Tables) (k : ZKey) (top : Option ℤ) → Distinct (zrange d k top)
unfolding zrange
zrange-Distinct d k top = select-Distinct top (firsts (d.scores k)) (firsts-Distinct (d.scores k))

pub find-if-remove :
    (b : Bool) (m m' : String) (l : Scores)
    → find m' (if b then remove m l else l) ≡ (if b && str_eq m m' then none else find m' l)
find-if-remove b m m' l = ground (arith, find-remove m m' l)

pub find-if-add :
    (b : Bool) (m m' : String) (s : ℤ) (l : Scores)
    → find m' (if b then (m, s) ∷ l else l) ≡ (if b && str_eq m m' then some s else find m' l)
find-if-add b m m' s l = ground arith

unfoldable pub memory : Redis
unfolding zrange
memory = record {
  Db = Tables;
  zscore = λ d k m. find m (d.scores k);
  hget = λ d. d.fields;
  sget = λ d. d.strings;
  zrange = zrange;
  zrange_limit = λ n d k top. take n (zrange d k top);
  zadd =
      λ k s m d. record d { scores = λ j. if zkey_eq k j then (m, s) ∷ d.scores j else d.scores j };
  zrem =
      λ k m d. record d { scores = λ j. if zkey_eq k j then remove m (d.scores j) else d.scores j };
  hset = λ k f v d. record d {
    fields = λ j g. if hkey_eq k j && str_eq f g then some v else d.fields j g;
  };
  del = λ k d. record d { fields = λ j g. if hkey_eq k j then none else d.fields j g };
  set = λ k v d. record d { strings = λ j. if skey_eq k j then some v else d.strings j };
  zscore-zadd = λ d k s m k' m'. find-if-add (zkey_eq k k') m m' s (d.scores k');
  zscore-zrem = λ d k m k' m'. find-if-remove (zkey_eq k k') m m' (d.scores k');
  zscore-hset = λ d k f v. refl;
  zscore-del = λ d k. refl;
  zscore-set = λ d k v. refl;
  hget-hset = λ d k f v k' f'. refl;
  hget-del = λ d k k' f'. refl;
  hget-zadd = λ d k s m. refl;
  hget-zrem = λ d k m. refl;
  hget-set = λ d k v. refl;
  sget-set = λ d k v k'. refl;
  sget-zadd = λ d k s m. refl;
  sget-zrem = λ d k m. refl;
  sget-hset = λ d k f v. refl;
  sget-del = λ d k. refl;
  find-zrange = find-zrange;
  zrange-Distinct = zrange-Distinct;
  find-zrange_limit = λ n d k top m s h.
      let full = find-take n m (zrange d k top) s h in sym (find-zrange d k top m) ∙ full;
  zrange_limit-Distinct = λ n d k top. take-Distinct n (zrange d k top) (zrange-Distinct d k top);
  zrange_limit-short = λ n d k top. take-short n (zrange d k top);
  length-zrange_limit = λ n d k top. length-take-le n (zrange d k top);
}

unfoldable pub empty_db : memory.Db
unfolding memory
empty_db = record { scores = λ k. []; fields = λ k f. none; strings = λ k. none }
