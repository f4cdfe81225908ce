-- ===== src/Config.antt =====
-- internal/config/file.go: the file of limiters as it is decoded, and the names of normalisers. The
-- YAML decoder is not modelled. `strconv.Atoi` is the parameter `atoi`.
pub mod Validation
pub mod Sources
pub mod Build
pub mod Loading
pub mod Sound
pub mod Given
pub mod Complete
pub mod Names
pub mod Hashing
use forwardlimit.Common.{
  Bool, true, false, ◌&&◌, ◌||◌, not, Option, none, some, List, [], ◌∷◌, if◌then◌else◌,
}
use forwardlimit.Common.Int.{ℤ, pos, negsuc, ltb_ℤ, leb_ℤ}
use forwardlimit.Common.Text.{Text, codes, text_eq, trim_space, cut_byte, split}
use forwardlimit.Common.Assoc.{is_some}

pub record ResponseSpec : Type 0 where
  pub status : ℤ
  pub content_type : Text
  pub body : Text
  pub body_file : Text

pub record WindowSpec : Type 0 where
  pub limit : ℤ
  pub window : ℤ
  pub block : ℤ

pub record BucketSpec : Type 0 where
  pub rate : ℤ
  pub burst : ℤ

-- The fields are, in order: body, header, query, first, composite, separator, normalise, hash.
mutual
  pub data KeySpec : Type 0 where
    key_spec : Text → List Text → List Text → KeySpecs → KeySpecs → Text → Text → Bool → KeySpec

  pub data KeySpecs : Type 0 where
    done : KeySpecs
    child : KeySpec → KeySpecs → KeySpecs

-- A pointer that may be nil is an option.
pub record LimiterSpec : Type 0 where
  pub name : Text
  pub key : Option KeySpec
  pub window : Option WindowSpec
  pub bucket : Option BucketSpec
  pub paths : List Text
  pub methods : List Text
  pub dry_run : Bool
  pub retry_after : Bool
  pub response : Option ResponseSpec

pub record File : Type 0 where
  pub response : Option ResponseSpec
  pub limiters : List LimiterSpec

pub record NormaliserKind : Type 0 where
  pub name : Text
  pub v4 : ℤ
  pub v6 : ℤ

abbrev pub outside : ℤ → ℤ → ℤ → Bool
outside low high n = ltb_ℤ n low || ltb_ℤ high n

-- The two range checks at the end of the case of "ipsubnet".
abbrev subnet_kind : ℤ → ℤ → Option NormaliserKind
subnet_kind v4 v6 =
    if outside (pos 0) (pos 32) v4 || outside (pos 0) (pos 128) v6
    then none
    else some (record { name = codes "ipsubnet"; v4 = v4; v6 = v6 })

abbrev both_prefixes : Option ℤ → Option ℤ → Option NormaliserKind
both_prefixes (some v4) (some v6) = subnet_kind v4 v6
both_prefixes _ _ = none

module _ (atoi : Text → Option ℤ) where
  -- At most two prefix lengths; `strings.Split` yields one text at least.
  abbrev prefix_lengths : List Text → Option NormaliserKind
  prefix_lengths [] = none
  prefix_lengths (p ∷ []) = both_prefixes (atoi (trim_space p)) (some (pos 64))
  prefix_lengths (p ∷ q ∷ []) = both_prefixes (atoi (trim_space p)) (atoi (trim_space q))
  prefix_lengths (p ∷ q ∷ r ∷ rest) = none

  abbrev subnet_of : Option Text → Option NormaliserKind
  subnet_of none = subnet_kind (pos 24) (pos 64)
  subnet_of (some arg) = prefix_lengths (split arg b',')

  abbrev without_argument : Option Text → NormaliserKind → Option NormaliserKind
  without_argument none k = some k
  without_argument (some arg) k = none

  -- The `switch` of `parseNormaliser`.
  abbrev parse_base : Text → Option Text → Option NormaliserKind
  parse_base base arg =
      let named : NormaliserKind = record { name = base; v4 = pos 0; v6 = pos 0 } in
      if text_eq base [] || text_eq base (codes "none")
      then without_argument arg (record { name = []; v4 = pos 0; v6 = pos 0 })
      else if text_eq base (codes "digits")
          || text_eq base (codes "lower")
          || text_eq base (codes "trim")
      then without_argument arg named
      else if text_eq base (codes "ipsubnet")
      then subnet_of arg
      else none

  -- `none` is an error.
  unfoldable pub parse_normaliser : Text → Option NormaliserKind
  unfolding cut_byte
  parse_normaliser name =
      let s = trim_space name in
      elim (cut_byte b'/' s) [
        | none ↦ parse_base s none
        | some (base, arg) ↦ parse_base base (some arg)
      ]
