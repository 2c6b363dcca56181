-- ===== src/Config.antt =====
-- pkg/config/config.go after viper has read the file, InitLogStorage's own defaults
-- (logger/internal/store/buffer.go), and the start of the scheduler's HTTP server.
pub mod Defaults
use Prim.Native.String.{String}
use text.Mathlib.Text.{◌==◌ as str_eq}
use go_flash_job.Base.{
  ℕ, zero, suc, ◌+◌, ◌-◌, ◌*◌, ◌/◌, ◌%◌, ◌^◌, ◌≤◌, ◌<◌, ◌≡◌, refl, sym, ap, ◌∙◌, ◌≢◌, ◌↔◌, ◌⊎◌, inl,
  inr, Bool, true, false, not, ◌&&◌, ◌||◌, Option, none, some, List, [], ◌∷◌, ◌++◌, map, Mem, Perm,
  arith, ltb, leb, ◌==◌, if◌then◌else◌, Bool-cases, Option-cases, length, get_or, set, take,
  length-append, length-set, length-perm, ℤ, pos, negsuc, pos_part, neg_part, ◌+ℤ◌, ◌-ℤ◌, ◌≤ℤ◌,
  ltb_ℤ, leb_ℤ, ◌==ℤ◌, +ℤ_parts, eq_of_parts, count, count-append, count-length, count-le,
  count-perm, one_if, ltb→lt, lt→ltb, leb→le, ==_iff,
}

pub record ServerConfig : Type 0 where
  pub port : String

pub record RedisConfig : Type 0 where
  pub addr : String
  pub password : String
  pub db : ℤ

pub record KafkaConfig : Type 0 where
  pub brokers : List String

pub record RabbitMqConfig : Type 0 where
  pub url : String

pub record LoggerConfig : Type 0 where
  pub dir : String
  pub max_size_mb : ℤ
  pub max_keep_days : ℤ

pub record Config : Type 0 where
  pub server : ServerConfig
  pub redis : RedisConfig
  pub kafka : KafkaConfig
  pub rabbit_mq : RabbitMqConfig
  pub logger : LoggerConfig

-- How InitConfig ends: log.Fatalf, or a configuration and whether it warned of an empty list of
-- brokers.
pub data Start : Type 0 where
  fatal : String → Start
  loaded : Config → Bool → Start

abbrev pub or_default : String → String → String
or_default s d = if str_eq s "" then d else s

abbrev pub or_default_ℤ : ℤ → ℤ → ℤ
or_default_ℤ n d = if n ==ℤ pos 0 then d else n

-- The default values of InitConfig.
unfoldable pub normalized : Config → Config
normalized c = record {
  server = record { port = or_default c.server.port "8080" };
  redis = record c.redis { addr = or_default c.redis.addr "localhost:6379" };
  kafka = c.kafka;
  rabbit_mq = c.rabbit_mq;
  logger = record {
    dir = or_default c.logger.dir "./logs";
    max_size_mb = or_default_ℤ c.logger.max_size_mb (pos 100);
    max_keep_days = or_default_ℤ c.logger.max_keep_days (pos 7);
  };
}

-- The checks of InitConfig.
unfoldable pub validated : Config → Start
validated c =
    if str_eq c.redis.addr ""
    then fatal "redis.addr must not be empty"
    else if str_eq c.rabbit_mq.url ""
    then fatal "rabbitmq.url must not be empty"
    else loaded c (length c.kafka.brokers == 0)

-- InitConfig
unfoldable pub init_config : Config → Start
unfolding normalized validated
init_config c = validated (normalized c)

-- What InitLogStorage makes of the configuration: the directory, maxSizeBytes and maxKeepDays.
pub record LogSettings : Type 0 where
  pub log_dir : String
  pub max_size_bytes : ℤ
  pub keep_days : ℤ

abbrev bytes_per_mb : ℕ
bytes_per_mb = 1024 * 1024

-- int64(mb) * 1024 * 1024, away from the ends of int64.
abbrev in_bytes : ℤ → ℤ
in_bytes (pos n) = pos (n * bytes_per_mb)
in_bytes (negsuc n) = negsuc (n * bytes_per_mb + (bytes_per_mb - 1))

abbrev pub size_or_default : ℤ → ℤ
size_or_default mb = if leb_ℤ (in_bytes mb) (pos 0) then pos (100 * bytes_per_mb) else in_bytes mb

abbrev pub days_or_default : ℤ → ℤ
days_or_default days = if leb_ℤ days (pos 0) then pos 7 else days

unfoldable pub log_settings : LoggerConfig → LogSettings
log_settings c = record {
  log_dir = or_default c.dir "./logs";
  max_size_bytes = size_or_default c.max_size_mb;
  keep_days = days_or_default c.max_keep_days;
}
