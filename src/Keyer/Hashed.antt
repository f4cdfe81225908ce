-- ===== src/Keyer/Hashed.antt =====
-- A keyer of internal/limiter/keyer that hashes never lets a raw value through.
use forwardlimit.Common.{
  ◌≡◌, refl, Option, none, some, List, [], ◌∷◌, if◌then◌else◌, Bool-cases, Option-cases, ◌⊎◌, inl,
  inr,
}
use forwardlimit.Common.Text.{Text, is_empty}
use forwardlimit.Request.{Request, Members, field, header_value, query_value}
use forwardlimit.Limiter.{Keyer, Keyed, key, skip, panics}
use forwardlimit.Keyer.{
  Hasher, Normaliser, normalise, to_keyed, derive, body_field, header, query_param, first,
  composite, collect, Parts, all, missing, panicked, joined,
}

-- A key that is yielded is one of the hasher's values.
abbrev pub IsImage : Hasher → Keyed → Type 0
IsImage h (key k) = (v : Text) × (h v ≡ some k)
IsImage h skip = Unit
IsImage h panics = Unit

to_keyed-IsImage : (h : Hasher) (v : Text) → IsImage h (to_keyed (h v))
to_keyed-IsImage h v = elim (Option-cases (h v)) [ inl e ↦ rw e tt | inr (k, e) ↦ rw e (v, e) ]

pub Keyed-cases : (k : Keyed) → ((v : Text) × (k ≡ key v)) ⊎ (k ≡ skip) ⊎ (k ≡ panics)
Keyed-cases (key v) = inl (v, refl)
Keyed-cases skip = inr (inl refl)
Keyed-cases panics = inr (inr refl)

module _ (n : Option Normaliser) (h : Hasher) where
  checked : (v : Text) → IsImage h (if is_empty v then skip else to_keyed (h v))
  checked v = elim (Bool-cases (is_empty v)) [
    | inl e ↦ rw e tt
    | inr e ↦ rw e (to_keyed-IsImage h v)
  ]

  derive-IsImage : (o : Option Text) → IsImage h (derive n (some h) o)
  unfolding derive
  derive-IsImage none = tt
  derive-IsImage (some raw) = checked (normalise n raw)

  pub first-IsImage : (ps : List Keyer) (r : Request) → IsImage h (first n (some h) ps r)
  unfolding first
  first-IsImage [] r = tt
  first-IsImage (p ∷ ps) r = elim (Keyed-cases (p r)) [
    | inl (raw, e) ↦ elim (Bool-cases (is_empty (normalise n raw))) [
      | inl y ↦ rw (e, first) (rw y (first-IsImage ps r))
      | inr y ↦ rw (e, first) (rw y (to_keyed-IsImage h (normalise n raw)))
    ]
    | inr (inl e) ↦ rw (e, first) (first-IsImage ps r)
    | inr (inr e) ↦ rw (e, first) tt
  ]

  joined-IsImage : (sep : Text) (ps : Parts) → IsImage h (joined n (some h) sep ps)
  joined-IsImage sep (all vs) = checked _
  joined-IsImage sep missing = tt
  joined-IsImage sep panicked = tt

  pub composite-IsImage :
      (ps : List Keyer) (sep : Text) (r : Request) → IsImage h (composite n (some h) ps sep r)
  unfolding composite
  composite-IsImage [] sep r = tt
  composite-IsImage (p ∷ ps) sep r = joined-IsImage sep (collect (p ∷ ps) r)

  pub body_field-IsImage :
      (decode : Text → Option Members) (name : Text) (r : Request)
      → IsImage h (body_field n (some h) decode name r)
  unfolding body_field
  body_field-IsImage decode name r = derive-IsImage (field decode r name)

  pub header-IsImage : (names : List Text) (r : Request) → IsImage h (header n (some h) names r)
  unfolding header
  header-IsImage names r = derive-IsImage (header_value r names)

  pub query_param-IsImage :
      (parse_query : Text → List (Text × List Text)) (names : List Text) (r : Request)
      → IsImage h (query_param n (some h) parse_query names r)
  unfolding query_param
  query_param-IsImage parse_query names r = derive-IsImage (query_value parse_query r names)
