-- ===== src/Settings/Load.antt =====
-- `Load` of internal/config/config.go.
use forwardlimit.Common.{Bool, true, false, Option, List, [], ◌∷◌, ◌++◌}
use forwardlimit.Common.Int.{ℤ, pos}
use forwardlimit.Common.Text.{Text, codes}
use forwardlimit.Settings.{Settings, Problem}
use forwardlimit.Settings.Loader.{str, boolean, integer, dur, list, normalise_prefix}
use forwardlimit.Settings.Checks.{validate}

pub data Loading : Type 0 where
  loaded : Settings → Loading
  invalid : List Problem → Loading

-- The end of `Load`: with no error, the settings.
abbrev pub accept : Settings → List Problem → Loading
accept c [] = loaded c
accept c (p ∷ ps) = invalid (p ∷ ps)

module _ (getenv : Text → Text) (parse_bool : Text → Option Bool) (parse_int : Text → Option ℤ)
    (parse_duration : Text → Option ℤ) (exists : Text → Bool) where
  -- The settings that are read, with the errors of the parsers in the order of the reading.
  unfoldable pub read : Settings × List Problem
  unfolding str boolean integer dur list normalise_prefix
  read =
      let text = str getenv in
      let flag = boolean getenv parse_bool in
      let number = integer getenv parse_int in
      let duration = dur getenv parse_duration in
      let (max_body, e1) = number (codes "MAX_BODY_BYTES") (pos 262144) in
      let (shutdown, e2) = duration (codes "SHUTDOWN_TIMEOUT") (pos 10_000_000_000) in
      let (redis_on, e3) = flag (codes "REDIS_ENABLED") true in
      let (tls, e4) = flag (codes "REDIS_TLS_ENABLED") false in
      let (skip, e5) = flag (codes "REDIS_TLS_SKIP_VERIFY") false in
      let (pool, e6) = number (codes "REDIS_POOL_SIZE") (pos 32) in
      let (retries, e7) = number (codes "REDIS_MAX_RETRIES") (pos 1) in
      let (dial, e8) = duration (codes "REDIS_DIAL_TIMEOUT") (pos 200_000_000) in
      let (reading, e9) = duration (codes "REDIS_READ_TIMEOUT") (pos 500_000_000) in
      let (writing, e10) = duration (codes "REDIS_WRITE_TIMEOUT") (pos 500_000_000) in
      let (cache_on, e11) = flag (codes "BLOCK_CACHE_ENABLED") true in
      let (entries, e12) = number (codes "BLOCK_CACHE_MAX_ENTRIES") (pos 200_000) in
      let (ttl, e13) = duration (codes "BLOCK_CACHE_MAX_TTL") (pos 60_000_000_000) in
      let (threshold, e14) = number (codes "STORE_BREAKER_THRESHOLD") (pos 3) in
      let (cooldown, e15) = duration (codes "STORE_BREAKER_COOLDOWN") (pos 5_000_000_000) in
      (
        record {
          config_path = text (codes "CONFIG_PATH") (codes "/etc/forwardlimit/config.yaml");
          listen_addr = text (codes "LISTEN_ADDR") (codes ":8080");
          log_level = text (codes "LOG_LEVEL") (codes "info");
          log_format = text (codes "LOG_FORMAT") (codes "json");
          max_body_bytes = max_body;
          shutdown_timeout = shutdown;
          metrics_namespace = text (codes "METRICS_NAMESPACE") (codes "forwardlimit");
          hash_secret = getenv (codes "HASH_SECRET");
          redis = record {
            enabled = redis_on;
            addrs = list getenv (codes "REDIS_ADDRS") (codes "127.0.0.1:6379" ∷ []);
            mode = text (codes "REDIS_MODE") (codes "single");
            tls_enabled = tls;
            tls_skip_verify = skip;
            tls_ca_file = text (codes "REDIS_TLS_CA_FILE") [];
            tls_cert_file = text (codes "REDIS_TLS_CERT_FILE") [];
            tls_key_file = text (codes "REDIS_TLS_KEY_FILE") [];
            pool_size = pool;
            max_retries = retries;
            dial_timeout = dial;
            read_timeout = reading;
            write_timeout = writing;
            key_prefix = normalise_prefix (text (codes "REDIS_KEY_PREFIX") (codes "forwardlimit:"));
          };
          block_cache = record { enabled = cache_on; max_entries = entries; max_ttl = ttl };
          breaker = record { threshold = threshold; cooldown = cooldown };
        },
        e1
            ++ (e2
                ++ (e3
                    ++ (e4
                        ++ (e5
                            ++ (e6
                                ++ (e7
                                    ++ (e8
                                        ++ (e9
                                            ++ (e10
                                                ++ (e11 ++ (e12 ++ (e13 ++ (e14 ++ e15))))))))))))),
      )

  unfoldable pub load : Loading
  unfolding validate
  load = let (c, errors) = read in accept c (errors ++ validate exists c)
