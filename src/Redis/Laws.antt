-- ===== src/Redis/Laws.antt =====
-- The laws of the interface as lemmas over any server, in sets that `simp` and `grind` take.
use Prim.Native.String.{String}
use text.Mathlib.Text.{◌==◌ as str_eq}
use text.Mathlib.TextPositions.{eq_refl}
use go_flash_job.Base.{ap}
use go_flash_job.Redis.{
  Redis, ZKey, HKey, SKey, Value, zkey_eq, hkey_eq, skey_eq, ℤ, ◌≡◌, if◌then◌else◌, ◌&&◌, none,
  some,
}

module _ (R : Redis) (d : R.Db) where
  pub zscore-zadd :
      (k : ZKey) (s : ℤ) (m : String) (k' : ZKey) (m' : String)
      → R.zscore (R.zadd k s m d) k' m'
        ≡ (if zkey_eq k k' && str_eq m m' then some s else R.zscore d k' m')
  zscore-zadd = R.zscore-zadd d

  pub zscore-zrem :
      (k : ZKey) (m : String) (k' : ZKey) (m' : String)
      → R.zscore (R.zrem k m d) k' m'
        ≡ (if zkey_eq k k' && str_eq m m' then none else R.zscore d k' m')
  zscore-zrem = R.zscore-zrem d

  pub zscore-hset : (k : HKey) (f : String) (v : Value) → R.zscore (R.hset k f v d) ≡ R.zscore d
  zscore-hset = R.zscore-hset d

  pub zscore-del : (k : HKey) → R.zscore (R.del k d) ≡ R.zscore d
  zscore-del = R.zscore-del d

  pub zscore-set : (k : SKey) (e : ℤ) → R.zscore (R.set k e d) ≡ R.zscore d
  zscore-set = R.zscore-set d

  pub hget-hset :
      (k : HKey) (f : String) (v : Value) (k' : HKey) (f' : String)
      → R.hget (R.hset k f v d) k' f'
        ≡ (if hkey_eq k k' && str_eq f f' then some v else R.hget d k' f')
  hget-hset = R.hget-hset d

  pub hget-del :
      (k : HKey) (k' : HKey) (f' : String)
      → R.hget (R.del k d) k' f' ≡ (if hkey_eq k k' then none else R.hget d k' f')
  hget-del = R.hget-del d

  pub hget-zadd : (k : ZKey) (s : ℤ) (m : String) → R.hget (R.zadd k s m d) ≡ R.hget d
  hget-zadd = R.hget-zadd d

  pub hget-zrem : (k : ZKey) (m : String) → R.hget (R.zrem k m d) ≡ R.hget d
  hget-zrem = R.hget-zrem d

  pub hget-set : (k : SKey) (e : ℤ) → R.hget (R.set k e d) ≡ R.hget d
  hget-set = R.hget-set d

  pub sget-set :
      (k : SKey) (e : ℤ) (k' : SKey)
      → R.sget (R.set k e d) k' ≡ (if skey_eq k k' then some e else R.sget d k')
  sget-set = R.sget-set d

  pub sget-zadd : (k : ZKey) (s : ℤ) (m : String) → R.sget (R.zadd k s m d) ≡ R.sget d
  sget-zadd = R.sget-zadd d

  pub sget-zrem : (k : ZKey) (m : String) → R.sget (R.zrem k m d) ≡ R.sget d
  sget-zrem = R.sget-zrem d

  pub sget-hset : (k : HKey) (f : String) (v : Value) → R.sget (R.hset k f v d) ≡ R.sget d
  sget-hset = R.sget-hset d

  pub sget-del : (k : HKey) → R.sget (R.del k d) ≡ R.sget d
  sget-del = R.sget-del d

-- What each reading gives after each command that writes.
pub ruleset reads = (
  zscore-zadd, zscore-zrem, zscore-hset, zscore-del, zscore-set, hget-hset, hget-del, hget-zadd,
  hget-zrem, hget-set, sget-set, sget-zadd, sget-zrem, sget-hset, sget-del, eq_refl,
)

-- The same for a command that leaves what is read alone, at each key.
module _ (R : Redis) (d : R.Db) where
  pub zscore-hset_at :
      (k : HKey) (f : String) (v : Value) (k' : ZKey) (m' : String)
      → R.zscore (R.hset k f v d) k' m' ≡ R.zscore d k' m'
  zscore-hset_at k f v k' m' = ap (λ g. g k' m') (R.zscore-hset d k f v)

  pub zscore-del_at :
      (k : HKey) (k' : ZKey) (m' : String) → R.zscore (R.del k d) k' m' ≡ R.zscore d k' m'
  zscore-del_at k k' m' = ap (λ g. g k' m') (R.zscore-del d k)

  pub zscore-set_at :
      (k : SKey) (e : ℤ) (k' : ZKey) (m' : String) → R.zscore (R.set k e d) k' m' ≡ R.zscore d k' m'
  zscore-set_at k v k' m' = ap (λ g. g k' m') (R.zscore-set d k v)

  pub hget-zadd_at :
      (k : ZKey) (s : ℤ) (m : String) (k' : HKey) (f' : String)
      → R.hget (R.zadd k s m d) k' f' ≡ R.hget d k' f'
  hget-zadd_at k s m k' f' = ap (λ g. g k' f') (R.hget-zadd d k s m)

  pub hget-zrem_at :
      (k : ZKey) (m : String) (k' : HKey) (f' : String)
      → R.hget (R.zrem k m d) k' f' ≡ R.hget d k' f'
  hget-zrem_at k m k' f' = ap (λ g. g k' f') (R.hget-zrem d k m)

  pub hget-set_at :
      (k : SKey) (e : ℤ) (k' : HKey) (f' : String) → R.hget (R.set k e d) k' f' ≡ R.hget d k' f'
  hget-set_at k v k' f' = ap (λ g. g k' f') (R.hget-set d k v)

  pub sget-zadd_at :
      (k : ZKey) (s : ℤ) (m : String) (k' : SKey) → R.sget (R.zadd k s m d) k' ≡ R.sget d k'
  sget-zadd_at k s m k' = ap (λ g. g k') (R.sget-zadd d k s m)

  pub sget-zrem_at : (k : ZKey) (m : String) (k' : SKey) → R.sget (R.zrem k m d) k' ≡ R.sget d k'
  sget-zrem_at k m k' = ap (λ g. g k') (R.sget-zrem d k m)

  pub sget-hset_at :
      (k : HKey) (f : String) (v : Value) (k' : SKey) → R.sget (R.hset k f v d) k' ≡ R.sget d k'
  sget-hset_at k f v k' = ap (λ g. g k') (R.sget-hset d k f v)

  pub sget-del_at : (k : HKey) (k' : SKey) → R.sget (R.del k d) k' ≡ R.sget d k'
  sget-del_at k k' = ap (λ g. g k') (R.sget-del d k)

pub ruleset reads_at = (
  zscore-zadd, zscore-zrem, hget-hset, hget-del, sget-set, eq_refl, zscore-hset_at, zscore-del_at,
  zscore-set_at, hget-zadd_at, hget-zrem_at, hget-set_at, sget-zadd_at, sget-zrem_at, sget-hset_at,
  sget-del_at,
)
