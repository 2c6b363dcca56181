-- ===== src/Config/Defaults.antt =====
-- What InitConfig refuses, and how its defaults go with those of InitLogStorage.
use Prim.Native.String.{String}
use text.Mathlib.Text.{◌==◌ as str_eq}
use go_flash_job.Base.{
  zero, suc, ◌≡◌, refl, sym, ap, ◌∙◌, ◌⊎◌, inl, inr, Bool, true, false, arith, ◌==◌, length, ℤ, pos,
  negsuc, ltb_ℤ,
}
use go_flash_job.Config.{
  Config, fatal, loaded, or_default, or_default_ℤ, normalized, validated, init_config,
  size_or_default, days_or_default, log_settings,
}

filled : (s d : String) → str_eq d "" ≡ false → str_eq (or_default s d) "" ≡ false
filled s d h = ground arith

filled_twice : (s d : String) → or_default (or_default s d) d ≡ or_default s d
filled_twice s d = ground arith

filled_twice_ℤ : (n d : ℤ) → or_default_ℤ (or_default_ℤ n d) d ≡ or_default_ℤ n d
filled_twice_ℤ n d = ground arith

normalized_twice : (c : Config) → normalized (normalized c) ≡ normalized c
unfolding normalized
normalized_twice c =
    rw
      (
        normalized,
        filled_twice c.server.port "8080",
        filled_twice c.redis.addr "localhost:6379",
        filled_twice c.logger.dir "./logs",
        filled_twice_ℤ c.logger.max_size_mb (pos 100),
        filled_twice_ℤ c.logger.max_keep_days (pos 7),
      )
      refl

size_of-default : (n : ℤ) → size_or_default (or_default_ℤ n (pos 100)) ≡ size_or_default n
size_of-default (pos zero) = refl
size_of-default (pos (suc n)) =
    ap size_or_default {x = or_default_ℤ (pos (suc n)) (pos 100)} {y = pos (suc n)} (ground arith)
size_of-default (negsuc n) =
    ap size_or_default {x = or_default_ℤ (negsuc n) (pos 100)} {y = negsuc n} (ground arith)

size_of-positive : (n : ℤ) → ltb_ℤ (pos 0) (size_or_default n) ≡ true
size_of-positive (pos zero) = refl
size_of-positive (pos (suc n)) = ground arith
size_of-positive (negsuc n) = ground arith

days_of-default : (n : ℤ) → days_or_default (or_default_ℤ n (pos 7)) ≡ days_or_default n
days_of-default n = ground arith

days_of-positive : (n : ℤ) → ltb_ℤ (pos 0) (days_or_default n) ≡ true
days_of-positive n = ground arith

-- InitConfig ends the program when rabbitmq.url is empty, and in no other case: after the defaults
-- its check of redis.addr cannot fail. Otherwise the program goes on with the defaults filled in,
-- and warns when there are no brokers.
pub init_config-decides :
    (c : Config)
    → ((str_eq c.rabbit_mq.url "" ≡ true)
        × (init_config c ≡ fatal "rabbitmq.url must not be empty"))
      ⊎ ((str_eq c.rabbit_mq.url "" ≡ false)
          × (init_config c ≡ loaded (normalized c) (length c.kafka.brokers == 0)))
unfolding init_config validated normalized
init_config-decides c = ground (arith, filled c.redis.addr "localhost:6379" refl)

-- A configuration that InitConfig has loaded has no empty port, address or directory, and loading
-- it again changes nothing.
pub init_config-settles :
    (c d : Config) (warned : Bool)
    → init_config c ≡ loaded d warned
    → (init_config d ≡ loaded d warned)
      × (str_eq d.server.port "" ≡ false)
      × (str_eq d.redis.addr "" ≡ false)
      × (str_eq d.logger.dir "" ≡ false)
unfolding init_config validated normalized
init_config-settles c d warned h = elim (init_config-decides c) [
  | inl (no_url, e) ↦ absurd (ground (arith, h, e))
  | inr (url, e) ↦
      let same : normalized c ≡ d = ground (arith, h, e) in
      (
        ap init_config (sym same) ∙ ap validated (normalized_twice c) ∙ h,
        rw⁻¹ same (filled c.server.port "8080" refl),
        rw⁻¹ same (filled c.redis.addr "localhost:6379" refl),
        rw⁻¹ same (filled c.logger.dir "./logs" refl),
      )
]

-- The defaults of InitConfig are those of InitLogStorage: the settings of the log storage are the
-- same with and without them. They always have a directory, a positive size and a positive
-- number of days.
pub log_settings-normalized :
    (c : Config)
    → let s = log_settings c.logger in
      (log_settings (normalized c).logger ≡ s)
      × (str_eq s.log_dir "" ≡ false)
      × (ltb_ℤ (pos 0) s.max_size_bytes ≡ true)
      × (ltb_ℤ (pos 0) s.keep_days ≡ true)
unfolding log_settings normalized
log_settings-normalized c = (
  rw
      (
        log_settings,
        filled_twice c.logger.dir "./logs",
        size_of-default c.logger.max_size_mb,
        days_of-default c.logger.max_keep_days,
      )
      refl,
  filled c.logger.dir "./logs" refl,
  size_of-positive c.logger.max_size_mb,
  days_of-positive c.logger.max_keep_days,
)
