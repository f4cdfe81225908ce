-- ===== src/Config/Build.antt =====
-- `File.Build` of internal/config/build.go: from a limiter file to what the server runs. `os.ReadFile`,
-- `strconv.Atoi`, the JSON decoder, `url.ParseQuery` and HMAC-SHA256 are parameters, and so is
-- `IPSubnet`, as `subnet`.
use forwardlimit.Common.{
  Bool, true, false, ◌&&◌, not, Option, none, some, List, [], ◌∷◌, ◌++◌, if◌then◌else◌, map,
}
use forwardlimit.Common.Int.{ℤ, pos}
use forwardlimit.Common.Text.{Text, codes, is_empty}
use forwardlimit.Common.Assoc.{insert}
use forwardlimit.Store.{Rule, Bucket}
use forwardlimit.Request.{Members}
use forwardlimit.Limiter.{Limiter, Keyer}
use forwardlimit.Keyer.{Normaliser, hmac, available}
use forwardlimit.Httpapi.{Response, default_body}
use forwardlimit.Config.{ResponseSpec, WindowSpec, BucketSpec, KeySpec, LimiterSpec, File}
use forwardlimit.Config.Validation.{is_zero_ℤ}
use forwardlimit.Config.Sources.{build_keyer}

pub data Warning : Type 0 where
  hash_secret_missing : Text → Warning
  none_active : Warning

pub record Built : Type 0 where
  pub limiters : List Limiter
  pub responses : List (Text × Response)
  pub default : Response
  pub warnings : List Warning

-- What `Build` ends in: the result, an error, or a nil pointer that is followed.
pub data Building : Type 0 where
  built : Built → Building
  failed crashed : Building

-- `DefaultResponse`
abbrev pub default_response : Response
default_response = record {
  status = pos 429;
  content_type = codes "application/json";
  body = default_body;
}

-- `DryRunNames` and `Names`
unfoldable pub dry_run_names : List Limiter → List Text
dry_run_names [] = []
dry_run_names (l ∷ ls) = let rest = dry_run_names ls in if l.dry_run then l.name ∷ rest else rest

unfoldable pub names : Built → List Text
names b = map (λ l. l.name) b.limiters

module _ (read_file : Text → Option Text) where
  -- The status, the type and the body that is in the file itself.
  abbrev pub overridden : ResponseSpec → Response → Response
  overridden spec base = record {
    status = if not (is_zero_ℤ spec.status) then spec.status else base.status;
    content_type =
        if not (is_empty spec.content_type) then spec.content_type else base.content_type;
    body = if not (is_empty spec.body) then spec.body else base.body;
  }

  abbrev with_body : Response → Option Text → Option Response
  with_body r none = none
  with_body r (some b) = some (record r { body = b })

  unfoldable pub resolve_response : ResponseSpec → Response → Option Response
  resolve_response spec base =
      if not (is_empty spec.body_file)
      then with_body (overridden spec base) (read_file spec.body_file)
      else some (overridden spec base)

abbrev pub no_rule : Rule
no_rule = record { limit = pos 0; window = pos 0; block = pos 0 }

abbrev pub no_bucket : Bucket
no_bucket = record { rate = pos 0; burst = pos 0 }

-- The rule and the bucket of a limiter, of which one is the zero value; `none` follows a nil pointer.
abbrev pub algorithm : Option WindowSpec → Option BucketSpec → Option (Rule × Bucket)
algorithm (some w) bucket =
    some (record { limit = w.limit; window = w.window; block = w.block }, no_bucket)
algorithm none (some b) = some (no_rule, record { rate = b.rate; burst = b.burst })
algorithm none none = none

abbrev pub limiter_from : LimiterSpec → Keyer → Rule × Bucket → Limiter
limiter_from spec k (rule, bucket) = record {
  name = spec.name;
  rule = rule;
  bucket = bucket;
  keyer = k;
  paths = spec.paths;
  methods = spec.methods;
  dry_run = spec.dry_run;
  advise_retry_after = spec.retry_after;
}

module _ (read_file : Text → Option Text) (make_keyer : KeySpec → Option (Keyer × Bool))
    (can_hash : Bool) where
  -- What happens to `Responses`, at the end of a round.
  abbrev pub override : LimiterSpec → Built → Building
  override spec b = elim spec.response [
    | none ↦ built b
    | some r ↦ elim (resolve_response read_file r b.default) [
      | none ↦ failed
      | some out ↦ built (record b { responses = insert spec.name out b.responses })
    ]
  ]

  -- One round of the loop of `Build`.
  unfoldable pub build_limiter : LimiterSpec → Built → Building
  build_limiter spec b = elim spec.key [
    | none ↦ crashed
    | some k ↦ elim (make_keyer k) [
      | none ↦ failed
      | some (keyer, needs_hash) ↦
          if needs_hash && not can_hash
          then built (record b { warnings = b.warnings ++ (hash_secret_missing spec.name ∷ []) })
          else elim (algorithm spec.window spec.bucket) [
            | none ↦ crashed
            | some chosen ↦
                override spec
                  (record b { limiters = b.limiters ++ (limiter_from spec keyer chosen ∷ []) })
          ]
    ]
  ]

  unfoldable pub build_limiters : List LimiterSpec → Built → Building
  build_limiters [] b = built b
  build_limiters (spec ∷ specs) b = elim (build_limiter spec b) [
    | built b' ↦ build_limiters specs b'
    | failed ↦ failed
    | crashed ↦ crashed
  ]

  abbrev is_idle : List Limiter → Bool
  is_idle [] = true
  is_idle (l ∷ ls) = false

  abbrev pub warn_idle : Building → Building
  warn_idle (built b) =
      built
        (if is_idle b.limiters then record b { warnings = b.warnings ++ (none_active ∷ []) } else b)
  warn_idle failed = failed
  warn_idle crashed = crashed

  abbrev pub started : Response → Built
  started r = record { limiters = []; responses = []; default = r; warnings = [] }

  -- The response that all others start from.
  abbrev pub global_response : Option ResponseSpec → Option Response
  global_response none = some default_response
  global_response (some r) = resolve_response read_file r default_response

  -- `Build`, with what `buildKeyer` does at the secret as `make_keyer`.
  unfoldable pub build_from : File → Building
  build_from f = elim (global_response f.response) [
    | none ↦ failed
    | some r ↦ warn_idle (build_limiters f.limiters (started r))
  ]

unfoldable pub build :
    (Text → Option Text)
    → (Text → Option ℤ)
    → (ℤ → ℤ → Normaliser)
    → (Text → Option Members)
    → (Text → List (Text × List Text))
    → (Text → Text → Text)
    → Text
    → File
    → Building
build read_file atoi subnet decode parse_query mac secret =
    build_from read_file (build_keyer atoi subnet decode parse_query (hmac mac secret))
      (available secret)
