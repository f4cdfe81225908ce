-- ===== src/Config/Given.antt =====
-- A key spec that the validation of internal/config/file.go accepts is always built into a keyer.
use forwardlimit.Common.{
  ◌≡◌, refl, Bool, true, false, ◌||◌, not, Option, none, some, List, [], ◌∷◌, Bool-cases, inl, inr,
  arith,
}
use forwardlimit.Common.Int.{ℤ}
use forwardlimit.Common.Text.{Text, is_empty}
use forwardlimit.Common.Assoc.{is_some}
use forwardlimit.Request.{Members}
use forwardlimit.Limiter.{Keyer}
use forwardlimit.Keyer.{Normaliser, Hasher}
use forwardlimit.Config.{KeySpec, key_spec, KeySpecs, done, child, parse_normaliser, NormaliserKind}
use forwardlimit.Config.Validation.{
  bad_normaliser, source_problems, is_some_key, is_some_text, validate_key, validate_keys,
}
use forwardlimit.Config.Sources.{build_keyer, build_children, from_source}
use forwardlimit.Config.Sound.{append_nil, fail_if_nil}

-- An optional result that is there.
abbrev pub Given {ℓ} : {A : Type ℓ} → Option A → Type ℓ
Given {A = A} o = (a : A) × (o ≡ some a)

is_some-Given : {A : Type 0} (o : Option A) → is_some o ≡ true → Given o
is_some-Given none e = absurd (ground arith)
is_some-Given (some a) e = (a, refl)

module _ (exists : Text → Bool) (atoi : Text → Option ℤ) (subnet : ℤ → ℤ → Normaliser)
    (decode : Text → Option Members) (parse_query : Text → List (Text × List Text))
    (h : Hasher) where
  -- A key spec without a problem has a source.
  has_source :
      (a b c d e : Bool)
      → source_problems exists atoi (a ∷ b ∷ c ∷ d ∷ e ∷ []) ≡ []
      → (a || b || c || d || e) ≡ true
  has_source a b c d e q = ground arith

  from_source-Given :
      (k : NormaliserKind) (body : Text) (names query : List Text) (f c : Bool) (separator : Text)
      (hash : Bool) (firsts composites : Option (List Keyer × Bool))
      → (not (is_empty body) || is_some_text names || is_some_text query || f || c) ≡ true
      → Given firsts
      → Given composites
      → Given (
          from_source atoi subnet decode parse_query h k body names query f c separator hash firsts
            composites)
  unfolding from_source
  from_source-Given k body names query f c separator hash firsts composites e (ks, p) (js, q) =
      rw (p, q)
        (elim (Bool-cases (not (is_empty body))) [
          | inl a ↦ rw a (_, refl)
          | inr a ↦ elim (Bool-cases (is_some_text names)) [
            | inl b ↦ rw (a, b) (_, refl)
            | inr b ↦ elim (Bool-cases (is_some_text query)) [
              | inl d ↦ rw (a, b, d) (_, refl)
              | inr d ↦ rest a b d f c e
            ]
          ]
        ])
    where
      rest :
          not (is_empty body) ≡ false
          → is_some_text names ≡ false
          → is_some_text query ≡ false
          → (f c : Bool)
          → (not (is_empty body) || is_some_text names || is_some_text query || f || c) ≡ true
          → Given (
              from_source atoi subnet decode parse_query h k body names query f c separator hash
                (some ks)
                (some js))
      rest a b d true c g = rw (a, b, d, from_source) (_, refl)
      rest a b d false true g = rw (a, b, d, from_source) (_, refl)
      rest a b d false false g = absurd (ground (arith, a, b, d, g))

  mutual
    unfolding validate_key build_keyer

    pub build_keyer-Given :
        (k : KeySpec)
        → validate_key exists atoi k ≡ []
        → Given (build_keyer atoi subnet decode parse_query h k)
    build_keyer-Given (key_spec body names query firsts composites separator normalise hash) e =
        let (up_to_composites, single_ok) = append_nil _ _ e in
        let (up_to_firsts, composites_ok) = append_nil _ _ up_to_composites in
        let (up_to_normalise, firsts_ok) = append_nil _ _ up_to_firsts in
        let (up_to_separator, normalise_ok) = append_nil _ _ up_to_normalise in
        let (source_ok, separator_ok) = append_nil _ _ up_to_separator in
        let parsed =
          fail_if_nil (not (is_some (parse_normaliser atoi normalise))) bad_normaliser
            normalise_ok in
        let (kind, p) = is_some-Given (parse_normaliser atoi normalise) (ground (arith, parsed)) in
        rw (p, build_keyer)
          (from_source-Given kind body names query (is_some_key firsts) (is_some_key composites)
            separator hash _ _
            (has_source (not (is_empty body)) (is_some_text names) (is_some_text query)
              (is_some_key firsts) (is_some_key composites) source_ok)
            (build_children-Given firsts firsts_ok) (build_children-Given composites composites_ok))

    build_children-Given :
        (ks : KeySpecs)
        → validate_keys exists atoi ks ≡ []
        → Given (build_children atoi subnet decode parse_query h ks)
    build_children-Given done e = (_, refl)
    build_children-Given (child k ks) e =
        let (first_ok, rest_ok) = append_nil _ _ e in
        let (one, p) = build_keyer-Given k first_ok in
        let (others, q) = build_children-Given ks rest_ok in rw (p, q, build_children) (_, refl)
