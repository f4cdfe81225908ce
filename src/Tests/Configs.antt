-- ===== src/Tests/Configs.antt =====
-- A file of one limiter, for internal/config/file.go and build.go.
use forwardlimit.Common.{◌≡◌, refl, true, false, none, some, [], ◌∷◌, arith}
use forwardlimit.Common.Int.{pos}
use forwardlimit.Common.Text.{codes, trim_space, trim_left, trim_right, is_space, cut_byte, text_eq}
use forwardlimit.Config.{File, LimiterSpec, KeySpec, key_spec, done, child, parse_normaliser}
use forwardlimit.Config.Validation.{
  validate, validate_limiters, validate_limiter, validate_bucket, validate_paths, validate_methods,
  validate_key, validate_response,
}
use forwardlimit.Config.Build.{Built, build, built}
use forwardlimit.Config.Sound.{IsSound}
use forwardlimit.Config.Complete.{build-Finished}
use forwardlimit.Store.Redis.{base}
use forwardlimit.Server.Apart.{limiters_apart}

abbrev header_key : KeySpec
header_key = key_spec [] (codes "X-User" ∷ []) [] done done [] (codes "lower") true

abbrev query_key : KeySpec
query_key = key_spec [] [] (codes "tenant" ∷ []) done done [] [] false

abbrev capacity : LimiterSpec
capacity = record {
  name = codes "capacity";
  key = some (key_spec [] [] [] done (child header_key (child query_key done)) [] [] false);
  window = none;
  bucket = some (record { rate = pos 10; burst = pos 20 });
  paths = [];
  methods = [];
  dry_run = false;
  retry_after = true;
  response =
      some (record { status = pos 503; content_type = []; body = codes "busy"; body_file = [] });
}

abbrev pub one_limiter : File
one_limiter = record { response = none; limiters = capacity ∷ [] }

build-Finished_example :
    (b : Built) × (build
        (λ p. none)
        (λ s. none)
        (λ i j s. s)
        (λ s. none)
        (λ q. [])
        (λ k s. s)
        (codes "s")
        one_limiter
      ≡ built b)
    × IsSound b
unfolding validate validate_limiters validate_limiter validate_bucket validate_paths
    validate_methods validate_key parse_normaliser trim_space trim_left trim_right is_space cut_byte
    text_eq validate_response
build-Finished_example =
    build-Finished (λ p. false) (λ s. none) (λ p. none) (λ i j s. s) (λ s. none) (λ q. [])
      (λ k s. s) (codes "s") one_limiter (λ p e. absurd (ground arith)) refl

-- Two limiters that differ in their names alone.
abbrev burst_too : LimiterSpec
burst_too = record capacity { name = codes "burst" }

limiters_apart_example :
    text_eq
      (base (codes "rl:") (record { limiter = codes "capacity"; bucket = codes "a:{b" }))
      (base (codes "rl:") (record { limiter = codes "burst"; bucket = codes "a" }))
    ≡ false
unfolding validate validate_limiters validate_limiter validate_bucket validate_paths
    validate_methods validate_key parse_normaliser trim_space trim_left trim_right is_space cut_byte
    text_eq validate_response
limiters_apart_example =
    limiters_apart (λ p. false) (λ s. none)
      (record { response = none; limiters = capacity ∷ burst_too ∷ [] }) [] [] [] capacity burst_too
      (codes "rl:") (codes "a:{b") (codes "a") refl refl
