-- ===== src/Settings/Checks.antt =====
-- `validate`, its three parts, and `Warnings` of internal/config/config.go.
use forwardlimit.Common.{
  Bool, true, false, ◌&&◌, ◌||◌, not, List, [], ◌∷◌, ◌++◌, if◌then◌else◌, any,
}
use forwardlimit.Common.Int.{ℤ, pos, leb_ℤ, ltb_ℤ}
use forwardlimit.Common.Text.{Text, codes, is_empty, text_eq, to_lower}
use forwardlimit.Settings.{
  Settings, RedisSettings, Problem, Fault, empty, not_positive, negative, unknown, tls_disabled,
  unreadable, half_pair,
}

-- `if b { l.fail(…) }`
abbrev pub fail_if : Bool → Text → Fault → List Problem
fail_if b key fault = if b then (key, fault) ∷ [] else []

-- Checks made one after the other.
unfoldable pub concat : List (List Problem) → List Problem
concat [] = []
concat (ps ∷ pss) = ps ++ concat pss

abbrev pub is_not_positive : ℤ → Bool
is_not_positive n = leb_ℤ n (pos 0)

abbrev pub is_one_of : List Text → Text → Bool
is_one_of texts s = any (text_eq s) texts

abbrev pub levels : List Text
levels = codes "debug" ∷ codes "info" ∷ codes "warn" ∷ codes "warning" ∷ codes "error" ∷ []

abbrev pub formats : List Text
formats = codes "json" ∷ codes "text" ∷ []

abbrev pub modes : List Text
modes = codes "single" ∷ codes "cluster" ∷ []

unfoldable pub validate_service : Settings → List Problem
unfolding to_lower text_eq
validate_service c = concat (
    fail_if (is_empty c.listen_addr) (codes "LISTEN_ADDR") empty
    ∷ fail_if (is_empty c.config_path) (codes "CONFIG_PATH") empty
    ∷ fail_if (is_not_positive c.max_body_bytes) (codes "MAX_BODY_BYTES") not_positive
    ∷ fail_if (is_not_positive c.shutdown_timeout) (codes "SHUTDOWN_TIMEOUT") not_positive
    ∷ fail_if (is_empty c.metrics_namespace) (codes "METRICS_NAMESPACE") empty
    ∷ fail_if (not (is_one_of levels (to_lower c.log_level))) (codes "LOG_LEVEL") unknown
    ∷ fail_if (not (is_one_of formats (to_lower c.log_format))) (codes "LOG_FORMAT") unknown
    ∷ [])

abbrev pub is_no_addr : List Text → Bool
is_no_addr [] = true
is_no_addr (a ∷ addrs) = false

module _ (exists : Text → Bool) where
  -- One round of the loop over the three files.
  abbrev pub check_file : RedisSettings → Text → Text → List Problem
  check_file r key path =
      if is_empty path
      then []
      else (fail_if (not r.tls_enabled) key tls_disabled
          ++ fail_if (not (exists path)) key unreadable)

  unfoldable pub validate_store : RedisSettings → List Problem
  unfolding text_eq
  validate_store r = concat (
      fail_if (not (is_one_of modes r.mode)) (codes "REDIS_MODE") unknown
      ∷ fail_if (is_no_addr r.addrs) (codes "REDIS_ADDRS") empty
      ∷ check_file r (codes "REDIS_TLS_CA_FILE") r.tls_ca_file
      ∷ check_file r (codes "REDIS_TLS_CERT_FILE") r.tls_cert_file
      ∷ check_file r (codes "REDIS_TLS_KEY_FILE") r.tls_key_file
      ∷ fail_if
          ((is_empty r.tls_cert_file && not (is_empty r.tls_key_file))
            || (not (is_empty r.tls_cert_file) && is_empty r.tls_key_file))
          (codes "REDIS_TLS_CERT_FILE") half_pair
      ∷ fail_if (ltb_ℤ r.max_retries (pos 0)) (codes "REDIS_MAX_RETRIES") negative
      ∷ fail_if (is_not_positive r.pool_size) (codes "REDIS_POOL_SIZE") not_positive
      ∷ fail_if (is_not_positive r.dial_timeout) (codes "REDIS_DIAL_TIMEOUT") not_positive
      ∷ fail_if (is_not_positive r.read_timeout) (codes "REDIS_READ_TIMEOUT") not_positive
      ∷ fail_if (is_not_positive r.write_timeout) (codes "REDIS_WRITE_TIMEOUT") not_positive
      ∷ [])

  unfoldable pub validate_decorators : Settings → List Problem
  validate_decorators c = concat (
      (if c.block_cache.enabled
        then fail_if (is_not_positive c.block_cache.max_entries) (codes "BLOCK_CACHE_MAX_ENTRIES")
            not_positive
          ++ fail_if (is_not_positive c.block_cache.max_ttl) (codes "BLOCK_CACHE_MAX_TTL")
              not_positive
        else [])
      ∷ fail_if (ltb_ℤ (pos 0) c.breaker.threshold && is_not_positive c.breaker.cooldown)
          (codes "STORE_BREAKER_COOLDOWN") not_positive
      ∷ [])

  unfoldable pub validate : Settings → List Problem
  validate c =
      validate_service c
      ++ (if c.redis.enabled then validate_store c.redis ++ validate_decorators c else [])

pub data Warning : Type 0 where
  limiting_disabled large_cache_ttl : Warning
  -- With whether a CA file is set beside it, and ignored.
  unverified : Bool → Warning

abbrev warn_if : Bool → Warning → List Warning
warn_if b w = if b then w ∷ [] else []

unfoldable pub warnings : Settings → List Warning
warnings c =
    warn_if (not c.redis.enabled) limiting_disabled
    ++ warn_if (c.block_cache.enabled && ltb_ℤ (pos 300_000_000_000) c.block_cache.max_ttl)
        large_cache_ttl
    ++ warn_if c.redis.tls_skip_verify (unverified (not (is_empty c.redis.tls_ca_file)))
