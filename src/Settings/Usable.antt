-- ===== src/Settings/Usable.antt =====
-- What the settings that `Load` of internal/config/config.go accepts promise to the rest.
use forwardlimit.Common.{
  ◌≡◌, refl, subst, Bool, true, false, ◌||◌, Option, List, [], ◌∷◌, ◌++◌, if◌then◌else◌, All, ◌⊎◌,
  inl, inr, Bool-cases, Option-cases, arith,
}
use forwardlimit.Common.Int.{ℤ, pos, ◌≤ℤ◌, ◌<ℤ◌}
use forwardlimit.Common.Text.{
  Text, codes, is_empty, to_lower, trim_space, trim_left, trim_right, is_space, trim_space_idem,
  cut_suffix, cut_suffix→append,
}
use forwardlimit.Common.Assoc.{is_some}
use forwardlimit.Observability.{parse_level, parse_format}
use forwardlimit.Settings.{Settings, RedisSettings, Problem, Fault}
use forwardlimit.Settings.Loader.{str, normalise_prefix}
use forwardlimit.Settings.Checks.{
  concat, is_one_of, levels, formats, modes, fail_if, is_no_addr, check_file, validate,
  validate_service, validate_store, validate_decorators,
}
use forwardlimit.Settings.Load.{loaded, accept, read, load}

-- What the store, and its two decorators, need of the settings.
pub record IsStoreReady (exists : Text → Bool) (c : Settings) : Type 0 where
  pub mode_known : is_one_of modes c.redis.mode ≡ true
  pub some_addr : is_no_addr c.redis.addrs ≡ false
  pub ca_there : (is_empty c.redis.tls_ca_file || exists c.redis.tls_ca_file) ≡ true
  pub cert_there : (is_empty c.redis.tls_cert_file || exists c.redis.tls_cert_file) ≡ true
  pub key_there : (is_empty c.redis.tls_key_file || exists c.redis.tls_key_file) ≡ true
  pub pair_whole : is_empty c.redis.tls_cert_file ≡ is_empty c.redis.tls_key_file
  pub pool : pos 0 <ℤ c.redis.pool_size
  pub retries : pos 0 ≤ℤ c.redis.max_retries
  pub dial : pos 0 <ℤ c.redis.dial_timeout
  pub reading : pos 0 <ℤ c.redis.read_timeout
  pub writing : pos 0 <ℤ c.redis.write_timeout
  pub breaker : (c.breaker.threshold ≤ℤ pos 0) ⊎ (pos 0 <ℤ c.breaker.cooldown)
  pub block_cache :
      (c.block_cache.enabled ≡ false)
      ⊎ ((pos 0 <ℤ c.block_cache.max_entries) × (pos 0 <ℤ c.block_cache.max_ttl))

pub record IsUsable (exists : Text → Bool) (c : Settings) : Type 0 where
  pub max_body : pos 0 <ℤ c.max_body_bytes
  pub shutdown : pos 0 <ℤ c.shutdown_timeout
  pub level : is_some (parse_level c.log_level) ≡ true
  pub format : is_some (parse_format c.log_format) ≡ true
  pub prefix : (c.redis.key_prefix ≡ []) ⊎ ((p : Text) × (c.redis.key_prefix ≡ p ++ (b':' ∷ [])))
  pub store : (c.redis.enabled ≡ false) ⊎ IsStoreReady exists c

append_nil : (xs ys : List Problem) → xs ++ ys ≡ [] → (xs ≡ []) × (ys ≡ [])
append_nil [] ys e = (refl, e)
append_nil (x ∷ xs) ys e = absurd (ground arith)

concat_nil : (pss : List (List Problem)) → concat pss ≡ [] → All (λ ps. ps ≡ []) pss
unfolding concat
concat_nil [] e = tt
concat_nil (ps ∷ pss) e =
    let (first_ok, rest_ok) = append_nil ps (concat pss) e in (first_ok, concat_nil pss rest_ok)

fail_if_nil : (b : Bool) (key : Text) (f : Fault) → fail_if b key f ≡ [] → b ≡ false
fail_if_nil b key f e = ground arith

guarded_nil : (b : Bool) (ps : List Problem) → b ≡ true → (if b then ps else []) ≡ [] → ps ≡ []
guarded_nil b ps h e = ground arith

parse_level-known :
    (s : Text)
    → trim_space s ≡ s
    → is_one_of levels (to_lower s) ≡ true
    → is_some (parse_level s) ≡ true
unfolding parse_level
parse_level-known s e h = rw (e, parse_level) (ground arith)

parse_format-known :
    (s : Text)
    → trim_space s ≡ s
    → is_one_of formats (to_lower s) ≡ true
    → is_some (parse_format s) ≡ true
unfolding parse_format
parse_format-known s e h = rw (e, parse_format) (ground arith)

normalise_prefix_lem :
    (p : Text) → (normalise_prefix p ≡ []) ⊎ ((q : Text) × (normalise_prefix p ≡ q ++ (b':' ∷ [])))
unfolding normalise_prefix
normalise_prefix_lem [] = inl refl
normalise_prefix_lem (c ∷ p) = elim (Option-cases (cut_suffix (c ∷ p) (b':' ∷ []))) [
  | inl e ↦ inr (c ∷ p, rw (e, normalise_prefix) refl)
  | inr (q, e) ↦ inr (q, rw (e, normalise_prefix) (cut_suffix→append (c ∷ p) (b':' ∷ []) q e))
]

str_trimmed :
    (getenv : Text → Text) (key def : Text)
    → trim_space def ≡ def
    → trim_space (str getenv key def) ≡ str getenv key def
unfolding str
str_trimmed getenv key def e = elim (Bool-cases (is_empty (trim_space (getenv key)))) [
  | inl y ↦ rw (y, str) e
  | inr n ↦ rw (n, str) (trim_space_idem (getenv key))
]

module _ (exists : Text → Bool) where
  check_file_nil :
      (r : RedisSettings) (key path : Text)
      → check_file exists r key path ≡ []
      → (is_empty path || exists path) ≡ true
  check_file_nil r key path e = ground arith

  store_ready :
      (c : Settings)
      → validate_store exists c.redis ≡ []
      → validate_decorators exists c ≡ []
      → IsStoreReady exists c
  unfolding validate_store validate_decorators
  store_ready c e d =
      let store_ok = concat_nil _ e in
      let decorators_ok = concat_nil _ d in
      let (
        mode_ok,
        (
          addr_ok,
          (
            ca_ok,
            (
              cert_ok,
              (
                key_ok,
                (pair_ok, (retries_ok, (pool_ok, (dial_ok, (reading_ok, (writing_ok, end)))))),
              ),
            ),
          ),
        ),
      ) =
        store_ok in
      let (cache_ok, (breaker_ok, end')) = decorators_ok in
      record {
        mode_known = ground (arith, mode_ok);
        some_addr = ground (arith, addr_ok);
        ca_there = check_file_nil c.redis (codes "REDIS_TLS_CA_FILE") c.redis.tls_ca_file ca_ok;
        cert_there =
            check_file_nil c.redis (codes "REDIS_TLS_CERT_FILE") c.redis.tls_cert_file cert_ok;
        key_there = check_file_nil c.redis (codes "REDIS_TLS_KEY_FILE") c.redis.tls_key_file key_ok;
        pair_whole = ground (arith, pair_ok);
        pool = ground (arith, pool_ok);
        retries = ground (arith, retries_ok);
        dial = ground (arith, dial_ok);
        reading = ground (arith, reading_ok);
        writing = ground (arith, writing_ok);
        breaker = ground (arith, breaker_ok);
        block_cache = ground (arith, cache_ok);
      }

  validated-IsUsable :
      (c : Settings)
      → trim_space c.log_level ≡ c.log_level
      → trim_space c.log_format ≡ c.log_format
      → (c.redis.key_prefix ≡ []) ⊎ ((p : Text) × (c.redis.key_prefix ≡ p ++ (b':' ∷ [])))
      → validate exists c ≡ []
      → IsUsable exists c
  unfolding validate validate_service
  validated-IsUsable c l f p e =
      let (service, store) = append_nil _ _ e in
      let (
        listen_ok,
        (path_ok, (body_ok, (shutdown_ok, (namespace_ok, (level_ok, (format_ok, end)))))),
      ) =
        concat_nil _ service in
      record {
        max_body = ground (arith, body_ok);
        shutdown = ground (arith, shutdown_ok);
        level = parse_level-known c.log_level l (ground (arith, level_ok));
        format = parse_format-known c.log_format f (ground (arith, format_ok));
        prefix = p;
        store = elim (Bool-cases c.redis.enabled) [
          | inr off ↦ inl off
          | inl on ↦
              let (redis_ok, decorators_ok) =
                append_nil (validate_store exists c.redis) (validate_decorators exists c)
                  (guarded_nil c.redis.enabled _ on store) in
              inr (store_ready c redis_ok decorators_ok)
        ];
      }

accept-loaded : (c d : Settings) (ps : List Problem) → accept c ps ≡ loaded d → (c ≡ d) × (ps ≡ [])
accept-loaded c d [] e = ground arith
accept-loaded c d (p ∷ ps) e = absurd (ground arith)

-- The settings that `Load` accepts are usable: the logger can be built from them, the body limit and the
-- time to shut down are positive, the key prefix is empty or ends with a colon, and, unless the store is
-- disabled, what the store and its decorators are built from is in range, the files that it names are
-- there, and a certificate comes with its key.
pub load-IsUsable :
    (getenv : Text → Text) (parse_bool : Text → Option Bool) (parse_int : Text → Option ℤ)
    (parse_duration : Text → Option ℤ) (exists : Text → Bool) (c : Settings)
    → load getenv parse_bool parse_int parse_duration exists ≡ loaded c
    → IsUsable exists c
unfolding load read trim_space trim_left trim_right is_space
load-IsUsable getenv parse_bool parse_int parse_duration exists c e =
    let (d, errors) = read getenv parse_bool parse_int parse_duration exists in
    let (same, none_wrong) = accept-loaded d c (errors ++ validate exists d) e in
    subst (IsUsable exists) same (
      validated-IsUsable exists d (str_trimmed getenv (codes "LOG_LEVEL") (codes "info") refl)
        (str_trimmed getenv (codes "LOG_FORMAT") (codes "json") refl)
        (normalise_prefix_lem (str getenv (codes "REDIS_KEY_PREFIX") (codes "forwardlimit:")))
        (append_nil errors (validate exists d) none_wrong).1)
