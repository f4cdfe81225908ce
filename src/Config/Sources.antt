-- ===== src/Config/Sources.antt =====
-- `buildKeyer` and `buildChildren` of internal/config/build.go. `strconv.Atoi`, the JSON decoder,
-- `url.ParseQuery` and `IPSubnet` are parameters; the hasher is that of the secret.
use forwardlimit.Common.{Bool, false, ◌||◌, not, Option, none, some, List, [], ◌∷◌, if◌then◌else◌}
use forwardlimit.Common.Int.{ℤ}
use forwardlimit.Common.Text.{Text, codes, is_empty, text_eq, to_lower, trim_space}
use forwardlimit.Request.{Members}
use forwardlimit.Limiter.{Keyer}
use forwardlimit.Keyer.{
  Normaliser, Hasher, digits, body_field, header, query_param, first, composite,
}
use forwardlimit.Config.{KeySpec, key_spec, KeySpecs, done, child, NormaliserKind, parse_normaliser}
use forwardlimit.Config.Validation.{is_some_text, is_some_key}

module _ (subnet : ℤ → ℤ → Normaliser) where
  -- `normaliserKind.fn`
  unfoldable pub kind_fn : NormaliserKind → Option Normaliser
  kind_fn k =
      if text_eq k.name (codes "digits")
      then some digits
      else if text_eq k.name (codes "lower")
      then some to_lower
      else if text_eq k.name (codes "trim")
      then some trim_space
      else if text_eq k.name (codes "ipsubnet")
      then some (subnet k.v4 k.v6)
      else none

module _ (atoi : Text → Option ℤ) (subnet : ℤ → ℤ → Normaliser) (decode : Text → Option Members)
    (parse_query : Text → List (Text × List Text)) (h : Hasher) where
  abbrev add_child : Option (Keyer × Bool) → Option (List Keyer × Bool) → Option (List Keyer × Bool)
  add_child (some (k, b)) (some (ks, c)) = some (k ∷ ks, b || c)
  add_child _ _ = none

  abbrev pub combined :
      (List Keyer → Keyer) → Bool → Option (List Keyer × Bool) → Option (Keyer × Bool)
  combined make hash none = none
  combined make hash (some (ks, b)) = some (make ks, b || hash)

  -- The `switch` of `buildKeyer`, at the normaliser and at what the children have become.
  unfoldable pub from_source :
      NormaliserKind
      → Text
      → List Text
      → List Text
      → Bool
      → Bool
      → Text
      → Bool
      → Option (List Keyer × Bool)
      → Option (List Keyer × Bool)
      → Option (Keyer × Bool)
  from_source k body names query has_first has_composite separator hash firsts composites =
      let n = kind_fn subnet k in
      let hs : Option Hasher = if hash then some h else none in
      if not (is_empty body)
      then some (body_field n hs decode body, hash)
      else if is_some_text names
      then some (header n hs names, hash)
      else if is_some_text query
      then some (query_param n hs parse_query query, hash)
      else if has_first
      then combined (first n hs) hash firsts
      else if has_composite
      then combined (λ ks. composite n hs ks separator) hash composites
      else none

  abbrev pub with_kind :
      Option NormaliserKind → (NormaliserKind → Option (Keyer × Bool)) → Option (Keyer × Bool)
  with_kind none make = none
  with_kind (some k) make = make k

  -- A keyer, and whether any node of its tree needs hashing.
  unfoldable mutual
    pub build_keyer : KeySpec → Option (Keyer × Bool)
    build_keyer (key_spec body names query firsts composites separator normalise hash) =
        with_kind (parse_normaliser atoi normalise) (λ k.
          from_source k body names query (is_some_key firsts) (is_some_key composites) separator
            hash (build_children firsts) (build_children composites))

    pub build_children : KeySpecs → Option (List Keyer × Bool)
    build_children done = some ([], false)
    build_children (child k ks) = add_child (build_keyer k) (build_children ks)
