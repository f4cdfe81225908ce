-- ===== src/Settings.antt =====
-- internal/config/config.go: the settings of the environment. The environment, `strconv.ParseBool`,
-- `strconv.ParseInt`, `time.ParseDuration` and `os.Stat` are parameters.
pub mod Loader
pub mod Checks
pub mod Load
pub mod Usable
use forwardlimit.Common.{Bool, Option, none, some, List, [], ◌∷◌, ◌++◌}
use forwardlimit.Common.Int.{ℤ}
use forwardlimit.Common.Text.{Text}

-- `redis` of the source's `Config`; a mode is its text.
pub record RedisSettings : Type 0 where
  pub enabled : Bool
  pub addrs : List Text
  pub mode : Text
  pub tls_enabled : Bool
  pub tls_skip_verify : Bool
  pub tls_ca_file : Text
  pub tls_cert_file : Text
  pub tls_key_file : Text
  pub pool_size : ℤ
  pub max_retries : ℤ
  pub dial_timeout : ℤ
  pub read_timeout : ℤ
  pub write_timeout : ℤ
  pub key_prefix : Text

pub record CacheSettings : Type 0 where
  pub enabled : Bool
  pub max_entries : ℤ
  pub max_ttl : ℤ

pub record BreakerSettings : Type 0 where
  pub threshold : ℤ
  pub cooldown : ℤ

pub record Settings : Type 0 where
  pub config_path : Text
  pub listen_addr : Text
  pub log_level : Text
  pub log_format : Text
  pub max_body_bytes : ℤ
  pub shutdown_timeout : ℤ
  pub metrics_namespace : Text
  pub hash_secret : Text
  pub redis : RedisSettings
  pub block_cache : CacheSettings
  pub breaker : BreakerSettings

-- What is wrong with a setting; the value that the message repeats is left out.
pub data Fault : Type 0 where
  not_boolean not_integer not_duration : Fault
  empty not_positive negative unknown : Fault
  tls_disabled unreadable half_pair : Fault

-- A message of the loader: the name of the setting, and its fault.
abbrev pub Problem : Type 0
Problem = Text × Fault
