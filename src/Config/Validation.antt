-- ===== src/Config/Validation.antt =====
-- `File.Validate` of internal/config/file.go. A problem is told by its kind; the place and the
-- values that its message names are left out. `os.Stat` is the parameter `exists`.
use forwardlimit.Common.{
  ℕ, Bool, true, false, ◌&&◌, ◌||◌, not, Option, none, some, List, [], ◌∷◌, ◌++◌, if◌then◌else◌,
  leb, ltb, ◌==◌, length, any,
}
use forwardlimit.Common.Int.{ℤ, pos, leb_ℤ}
use forwardlimit.Common.Text.{
  Text, codes, is_empty, text_eq, to_upper, has_prefix, trim_suffix, contains_byte,
}
use forwardlimit.Common.Assoc.{is_some}
use forwardlimit.Config.{
  ResponseSpec, WindowSpec, BucketSpec, KeySpec, key_spec, KeySpecs, done, child, LimiterSpec, File,
  outside, parse_normaliser,
}

pub data Problem : Type 0 where
  no_limiters : Problem
  name_missing name_malformed name_duplicate : Problem
  no_algorithm two_algorithms : Problem
  limit_range window_range block_range rate_range burst_range : Problem
  status_range two_bodies body_file_unreadable : Problem
  key_missing no_source many_sources stray_separator bad_normaliser single_child : Problem
  path_empty path_relative path_star : Problem
  method_empty method_malformed method_duplicate : Problem

-- `if b { fail(…) }`
abbrev pub fail_if : Bool → Problem → List Problem
fail_if b p = if b then p ∷ [] else []

abbrev pub seen_before : Text → List Text → Bool
seen_before x seen = any (text_eq x) seen

abbrev pub is_lower_or_digit : ℕ → Bool
is_lower_or_digit c = (leb b'a' c && leb c b'z') || (leb b'0' c && leb c b'9')

abbrev pub all_of : (ℕ → Bool) → Text → Bool
all_of p [] = true
all_of p (c ∷ s) = p c && all_of p s

-- `nameRe`
abbrev pub is_name : Text → Bool
is_name [] = false
is_name (c ∷ s) =
    is_lower_or_digit c && all_of (λ d. is_lower_or_digit d || d == b'_' || d == b'-') s

abbrev is_method_byte : ℕ → Bool
is_method_byte c =
    is_lower_or_digit c || (leb b'A' c && leb c b'Z') || contains_byte c (codes "!#$%&'*+-.^_`|~")

-- `methodRe`
abbrev pub is_method : Text → Bool
is_method s = not (is_empty s) && all_of is_method_byte s

unfoldable pub validate_window : WindowSpec → List Problem
validate_window w =
    fail_if (outside (pos 1) (pos 10_000) w.limit) limit_range
    ++ fail_if (outside (pos 1_000_000_000) (pos 3_600_000_000_000) w.window) window_range
    ++ fail_if (outside (pos 1_000_000_000) (pos 86_400_000_000_000) w.block) block_range

unfoldable pub validate_bucket : BucketSpec → List Problem
validate_bucket b =
    fail_if (outside (pos 1) (pos 1_000_000) b.rate) rate_range
    ++ fail_if (outside (pos 1) (pos 1_000_000) b.burst) burst_range

abbrev pub is_zero_ℤ : ℤ → Bool
is_zero_ℤ n = leb_ℤ n (pos 0) && leb_ℤ (pos 0) n

abbrev path_problems : Text → List Problem
path_problems p =
    if is_empty p
    then path_empty ∷ []
    else if not (has_prefix p (b'/' ∷ []))
    then path_relative ∷ []
    else fail_if (contains_byte b'*' (trim_suffix p (b'/' ∷ b'*' ∷ []))) path_star

unfoldable pub validate_paths : List Text → List Problem
validate_paths [] = []
validate_paths (p ∷ ps) = path_problems p ++ validate_paths ps

-- One round of the loop of `validateMethods`: the problem of a method, and the methods seen after it.
abbrev method_problems : Text → List Text → List Problem × List Text
method_problems m seen =
    if is_empty m
    then (method_empty ∷ [], seen)
    else if not (is_method m)
    then (method_malformed ∷ [], seen)
    else if seen_before (to_upper m) seen
    then (method_duplicate ∷ [], seen)
    else ([], to_upper m ∷ seen)

unfoldable pub validate_methods : List Text → List Text → List Problem
validate_methods seen [] = []
validate_methods seen (m ∷ ms) =
    let (problems, seen') = method_problems m seen in problems ++ validate_methods seen' ms

abbrev pub is_some_key : KeySpecs → Bool
is_some_key done = false
is_some_key (child k ks) = true

abbrev pub is_some_text : List Text → Bool
is_some_text [] = false
is_some_text (x ∷ xs) = true

abbrev is_single : KeySpecs → Bool
is_single (child k done) = true
is_single _ = false

abbrev one_if : Bool → ℕ
one_if b = if b then 1 else 0

module _ (exists : Text → Bool) (atoi : Text → Option ℤ) where
  unfoldable pub validate_response : ResponseSpec → List Problem
  validate_response r =
      fail_if (not (is_zero_ℤ r.status) && outside (pos 400) (pos 599) r.status) status_range
      ++ fail_if (not (is_empty r.body) && not (is_empty r.body_file)) two_bodies
      ++ fail_if (not (is_empty r.body_file) && not (exists r.body_file)) body_file_unreadable

  -- The length of `sources`.
  abbrev pub source_problems : List Bool → List Problem
  source_problems set =
      let n = length (only set) in if n == 0 then no_source ∷ [] else fail_if (ltb 1 n) many_sources
    where
      only : List Bool → List Bool
      only [] = []
      only (b ∷ bs) = if b then b ∷ only bs else only bs

  unfoldable mutual
    pub validate_key : KeySpec → List Problem
    validate_key (key_spec body header query first composite separator normalise hash) =
        source_problems (
          not (is_empty body)
          ∷ is_some_text header
          ∷ is_some_text query
          ∷ is_some_key first
          ∷ is_some_key composite
          ∷ [])
        ++ fail_if (not (is_empty separator) && not (is_some_key composite)) stray_separator
        ++ fail_if (not (is_some (parse_normaliser atoi normalise))) bad_normaliser
        ++ validate_keys first
        ++ validate_keys composite
        ++ fail_if (is_single composite) single_child

    pub validate_keys : KeySpecs → List Problem
    validate_keys done = []
    validate_keys (child k ks) = validate_key k ++ validate_keys ks

  -- The problem of a name, and the names that are taken after it.
  abbrev pub name_problems : Text → List Text → List Problem × List Text
  name_problems name seen =
      if is_empty name
      then (name_missing ∷ [], seen)
      else if not (is_name name)
      then (name_malformed ∷ [], seen)
      else if seen_before name seen
      then (name_duplicate ∷ [], seen)
      else ([], name ∷ seen)

  abbrev pub algorithm_problems : Option WindowSpec → Option BucketSpec → List Problem
  algorithm_problems none none = no_algorithm ∷ []
  algorithm_problems (some w) (some b) = two_algorithms ∷ []
  algorithm_problems (some w) none = validate_window w
  algorithm_problems none (some b) = validate_bucket b

  abbrev pub key_problems : Option KeySpec → List Problem
  key_problems none = key_missing ∷ []
  key_problems (some k) = validate_key k

  abbrev pub response_problems : Option ResponseSpec → List Problem
  response_problems none = []
  response_problems (some r) = validate_response r

  unfoldable pub validate_limiter : LimiterSpec → List Text → List Problem × List Text
  validate_limiter l seen =
      let (named, seen') = name_problems l.name seen in
      (
        named
            ++ algorithm_problems l.window l.bucket
            ++ key_problems l.key
            ++ validate_paths l.paths
            ++ validate_methods [] l.methods
            ++ response_problems l.response,
        seen',
      )

  unfoldable pub validate_limiters : List LimiterSpec → List Text → List Problem
  validate_limiters [] seen = []
  validate_limiters (l ∷ ls) seen =
      let (problems, seen') = validate_limiter l seen in problems ++ validate_limiters ls seen'

  abbrev pub is_none_left : List LimiterSpec → Bool
  is_none_left [] = true
  is_none_left (l ∷ ls) = false

  -- `Validate`: a file is accepted if there is no problem.
  unfoldable pub validate : File → List Problem
  validate f =
      fail_if (is_none_left f.limiters) no_limiters
      ++ response_problems f.response
      ++ validate_limiters f.limiters []
