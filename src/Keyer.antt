-- ===== src/Keyer.antt =====
-- internal/limiter/keyer/keyer.go: the bucket extractors and how they combine. HMAC-SHA256 is the
-- parameter `mac`.
pub mod Hashed
pub mod Combined
pub mod Subnet
use forwardlimit.Common.{
  ℕ, ◌+◌, ◌-◌, ◌/◌, ◌%◌, Bool, true, false, ◌&&◌, Option, none, some, List, [], ◌∷◌, ◌++◌,
  if◌then◌else◌, ltb, leb,
}
use forwardlimit.Common.Text.{Text, is_empty, to_lower, trim_space, join}
use forwardlimit.Request.{Request, Members, non_empty, field, header_value, query_value}
use forwardlimit.Limiter.{Keyer, Keyed, key, skip, panics}

-- `none` is `("", false)`: hashing is not available.
abbrev pub Hasher : Type 0
Hasher = Text → Option Text

abbrev pub Normaliser : Type 0
Normaliser = Text → Text

-- `Plain`
abbrev pub plain : Hasher
plain = non_empty

abbrev hex_digit : ℕ → ℕ
hex_digit d = if ltb d 10 then b'0' + d else b'a' + (d - 10)

-- `hex.EncodeToString`
unfoldable pub hex_encode : Text → Text
hex_encode [] = []
hex_encode (c ∷ s) = hex_digit (c / 16) ∷ hex_digit (c % 16) ∷ hex_encode s

module _ (mac : Text → Text → Text) where
  -- `HMAC.Hash`, of the hasher with that secret.
  unfoldable pub hmac : Text → Hasher
  hmac secret v = if is_empty secret then none else some (hex_encode (mac secret v))

-- `HMAC.Available`
abbrev pub available : Text → Bool
available secret = if is_empty secret then false else true

unfoldable pub digits : Normaliser
digits [] = []
digits (c ∷ s) = let rest = digits s in if leb b'0' c && leb c b'9' then c ∷ rest else rest

-- What a keyer declares beside its source; a nil hasher is `Plain`.
abbrev pub hasher : Option Hasher → Hasher
hasher none = plain
hasher (some h) = h

abbrev pub normalise : Option Normaliser → Normaliser
normalise none v = v
normalise (some n) v = n v

abbrev pub to_keyed : Option Text → Keyed
to_keyed none = skip
to_keyed (some k) = key k

module _ (n : Option Normaliser) (h : Option Hasher) where
  -- What `BodyField`, `Header` and `QueryParam` do with the value that they found.
  unfoldable pub derive : Option Text → Keyed
  derive none = skip
  derive (some raw) = let v = normalise n raw in if is_empty v then skip else to_keyed (hasher h v)

  -- `BodyField.Key`
  unfoldable pub body_field : (Text → Option Members) → Text → Keyer
  unfolding derive
  body_field decode name r = derive (field decode r name)

  -- `Header.Key`
  unfoldable pub header : List Text → Keyer
  unfolding derive
  header names r = derive (header_value r names)

  -- `QueryParam.Key`
  unfoldable pub query_param : (Text → List (Text × List Text)) → List Text → Keyer
  unfolding derive
  query_param parse_query names r = derive (query_value parse_query r names)

  -- `First.Key`
  unfoldable pub first : List Keyer → Keyer
  first [] r = skip
  first (p ∷ ps) r = elim (p r) [
    | key raw ↦ let v = normalise n raw in if is_empty v then first ps r else to_keyed (hasher h v)
    | skip ↦ first ps r
    | panics ↦ panics
  ]

-- The values of all parts, one of which may be missing or panic.
pub data Parts : Type 0 where
  all : List Text → Parts
  missing panicked : Parts

abbrev with_part : Text → Parts → Parts
with_part v (all vs) = all (v ∷ vs)
with_part v missing = missing
with_part v panicked = panicked

-- The loop of `Composite.Key`.
unfoldable pub collect : List Keyer → Request → Parts
collect [] r = all []
collect (p ∷ ps) r = elim (p r) [
  | key v ↦ with_part v (collect ps r)
  | skip ↦ missing
  | panics ↦ panicked
]

abbrev pub separator : Text → Text
separator sep = if is_empty sep then b':' ∷ [] else sep

abbrev pub is_nil : List Keyer → Bool
is_nil [] = true
is_nil (p ∷ ps) = false

module _ (n : Option Normaliser) (h : Option Hasher) where
  abbrev pub joined : Text → Parts → Keyed
  joined sep (all vs) =
      let v = normalise n (join vs (separator sep)) in
      if is_empty v then skip else to_keyed (hasher h v)
  joined sep missing = skip
  joined sep panicked = panics

  -- `Composite.Key`
  unfoldable pub composite : List Keyer → Text → Keyer
  unfolding collect
  composite parts sep r = if is_nil parts then skip else joined sep (collect parts r)
