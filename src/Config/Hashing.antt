-- ===== src/Config/Hashing.antt =====
-- The keyers that `buildKeyer` of internal/config/build.go makes from a key spec with `hash: true`.
use forwardlimit.Common.{
  ◌≡◌, refl, Bool, true, not, Option, none, some, List, inl, inr, subst, Bool-cases, Option-cases,
  arith,
}
use forwardlimit.Common.Int.{ℤ}
use forwardlimit.Common.Text.{Text, is_empty}
use forwardlimit.Request.{Request, Members}
use forwardlimit.Limiter.{Keyer}
use forwardlimit.Keyer.{Normaliser, Hasher, first, composite}
use forwardlimit.Keyer.Hashed.{
  IsImage, body_field-IsImage, header-IsImage, query_param-IsImage, first-IsImage,
  composite-IsImage,
}
use forwardlimit.Config.{key_spec, KeySpecs, NormaliserKind, parse_normaliser}
use forwardlimit.Config.Validation.{is_some_text, is_some_key}
use forwardlimit.Config.Sources.{kind_fn, combined, from_source, build_keyer, build_children}

module _ (atoi : Text → Option ℤ) (subnet : ℤ → ℤ → Normaliser) (decode : Text → Option Members)
    (parse_query : Text → List (Text × List Text)) (h : Hasher) where
  -- Every key that is yielded is one of the hasher's values, and hashing is reported.
  abbrev Hashes : Option (Keyer × Bool) → Type 0
  Hashes none = Unit
  Hashes (some (k, b)) = (b ≡ true) × ((r : Request) → IsImage h (k r))

  combined-Hashes :
      (make : List Keyer → Keyer) (o : Option (List Keyer × Bool))
      → ((ks : List Keyer) (r : Request) → IsImage h (make ks r))
      → Hashes (combined atoi subnet decode parse_query h make true o)
  combined-Hashes make none all = tt
  combined-Hashes make (some (ks, b)) all = (ground arith, all ks)

  from_source-Hashes :
      (k : NormaliserKind) (body : Text) (names query : List Text) (has_first has_composite : Bool)
      (separator : Text) (firsts composites : Option (List Keyer × Bool))
      → Hashes (
          from_source atoi subnet decode parse_query h k body names query has_first has_composite
            separator true firsts composites)
  unfolding from_source
  from_source-Hashes k body names query has_first has_composite separator firsts composites =
      let n = kind_fn subnet k in
      elim (Bool-cases (not (is_empty body))) [
        | inl e ↦ rw e (refl, body_field-IsImage n h decode body)
        | inr e ↦ elim (Bool-cases (is_some_text names)) [
          | inl e' ↦ rw (e, e') (refl, header-IsImage n h names)
          | inr e' ↦ elim (Bool-cases (is_some_text query)) [
            | inl q ↦ rw (e, e', q) (refl, query_param-IsImage n h parse_query query)
            | inr q ↦ elim (Bool-cases has_first) [
              | inl f ↦
                  rw (e, e', q, f) (combined-Hashes (first n (some h)) firsts (first-IsImage n h))
              | inr f ↦ elim (Bool-cases has_composite) [
                | inl c ↦
                    rw (e, e', q, f, c)
                      (combined-Hashes (λ ks. composite n (some h) ks separator) composites
                        (λ ks. composite-IsImage n h ks separator))
                | inr c ↦ rw (e, e', q, f, c) tt
              ]
            ]
          ]
        ]
      ]

  -- A key spec that sets `hash: true` never lets a raw value through, whatever else it sets and whatever
  -- its children are: of the keyer that is built from it, every key that a request yields is a value of
  -- the hasher; and the spec is reported as one that hashes, so that the secret is asked for.
  pub build_keyer-IsImage :
      (body : Text) (names query : List Text) (firsts composites : KeySpecs)
      (separator normalise : Text) (k : Keyer) (b : Bool)
      → build_keyer atoi subnet decode parse_query h
          (key_spec body names query firsts composites separator normalise true)
        ≡ some (k, b)
      → (b ≡ true) × ((r : Request) → IsImage h (k r))
  unfolding build_keyer
  build_keyer-IsImage body names query firsts composites separator normalise k b built =
      elim (Option-cases (parse_normaliser atoi normalise)) [
        | inl e ↦ (let gone = rw e at built in cc)
        | inr (kind, e) ↦ subst Hashes (rw e at built) (
            from_source-Hashes kind body names query (is_some_key firsts) (is_some_key composites)
              separator (build_children atoi subnet decode parse_query h firsts)
              (build_children atoi subnet decode parse_query h composites))
      ]
