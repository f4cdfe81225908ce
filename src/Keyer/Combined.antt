-- ===== src/Keyer/Combined.antt =====
-- `First` and `Composite` of internal/limiter/keyer.
use forwardlimit.Common.{
  suc, ◌≡◌, refl, sym, ap, subst, ◌∙◌, true, false, Option, none, some, List, [], ◌∷◌, ◌++◌,
  Bool-cases, Option-cases, length, All, ◌⊎◌, inl, inr, arith,
}
use forwardlimit.Common.Text.{Text, is_empty, join, Lacks, cut_byte, cut_byte-append}
use forwardlimit.Request.{Request}
use forwardlimit.Limiter.{Keyer, key, skip}
use forwardlimit.Keyer.{
  Hasher, Normaliser, hasher, normalise, to_keyed, first, composite, collect, Parts, all, missing,
  panicked, joined, separator,
}
use forwardlimit.Keyer.Hashed.{Keyed-cases}

module _ (n : Option Normaliser) (h : Option Hasher) (r : Request) where
  -- A source that yields nothing, or a value that is normalised to nothing.
  abbrev pub IsUnusable : Keyer → Type 0
  IsUnusable p =
      (p r ≡ skip) ⊎ ((raw : Text) × (p r ≡ key raw) × (is_empty (normalise n raw) ≡ true))

  -- `First` passes over the sources that are unusable, in order; the first usable one decides, by its
  -- normalised value, and those behind it are not asked. With no usable source it does not apply.
  first_usable :
      (front back : List Keyer) (p : Keyer) (raw : Text)
      → All IsUnusable front
      → p r ≡ key raw
      → is_empty (normalise n raw) ≡ false
      → (first n h (front ++ (p ∷ back)) r ≡ to_keyed (hasher h (normalise n raw)))
        × (first n h front r ≡ skip)
  unfolding first
  first_usable [] back p raw u e v = (rw (e, first) (rw v refl), refl)
  first_usable (q ∷ front) back p raw (inl s, u) e v =
      rw (s, first) (first_usable front back p raw u e v)
  first_usable (q ∷ front) back p raw (inr (w, k, y), u) e v =
      rw (k, first) (rw y (first_usable front back p raw u e v))

-- Every part yields a value, and these are they, in order.
abbrev pub Yields : Request → List Keyer → List Text → Type 0
Yields r [] [] = Unit
Yields r (p ∷ ps) (v ∷ vs) = (p r ≡ key v) × Yields r ps vs
Yields r _ _ = ⊥

Parts-cases : (q : Parts) → ((vs : List Text) × (q ≡ all vs)) ⊎ (q ≡ missing) ⊎ (q ≡ panicked)
Parts-cases (all vs) = inl (vs, refl)
Parts-cases missing = inr (inl refl)
Parts-cases panicked = inr (inr refl)

collect→Yields :
    (ps : List Keyer) (r : Request) (vs : List Text) → collect ps r ≡ all vs → Yields r ps vs
unfolding collect
collect→Yields [] r [] e = tt
collect→Yields [] r (v ∷ vs) e = absurd (ground arith)
collect→Yields (p ∷ ps) r vs e = elim (Keyed-cases (p r)) [
  | inr (inl s) ↦ absurd (ground arith)
  | inr (inr s) ↦ absurd (ground arith)
  | inl (v, k) ↦ elim (Parts-cases (collect ps r)) [
    | inr (inl m) ↦ absurd (ground arith)
    | inr (inr m) ↦ absurd (ground arith)
    | inl (us, m) ↦
        let same : v ∷ us ≡ vs = ground arith in
        subst (Yields r (p ∷ ps)) same (k, collect→Yields ps r us m)
  ]
]

Yields-length :
    (r : Request) (ps : List Keyer) (vs : List Text) → Yields r ps vs → length vs ≡ length ps
Yields-length r [] [] y = refl
Yields-length r [] (v ∷ vs) y = absurd y
Yields-length r (p ∷ ps) [] y = absurd y
Yields-length r (p ∷ ps) (v ∷ vs) y = ap suc (Yields-length r ps vs y.1)

Yields-unique :
    (r : Request) (ps : List Keyer) (us vs : List Text) → Yields r ps us → Yields r ps vs → us ≡ vs
Yields-unique r [] [] [] y z = refl
Yields-unique r [] [] (v ∷ vs) y z = absurd z
Yields-unique r [] (u ∷ us) vs y z = absurd y
Yields-unique r (p ∷ ps) [] vs y z = absurd y
Yields-unique r (p ∷ ps) (u ∷ us) [] y z = absurd z
Yields-unique r (p ∷ ps) (u ∷ us) (v ∷ vs) y z =
    let rest = Yields-unique r ps us vs y.1 z.1 in ground (arith, y.0, z.0)

hashed_join :
    (n : Option Normaliser) (h : Option Hasher) (sep : Text) (vs : List Text) (k : Text)
    → joined n h sep (all vs) ≡ key k
    → hasher h (normalise n (join vs (separator sep))) ≡ some k
hashed_join n h sep vs k e =
    let v = normalise n (join vs (separator sep)) in
    elim (Bool-cases (is_empty v)) [
      | inl y ↦ absurd (ground arith)
      | inr y ↦ elim (Option-cases (hasher h v)) [
        | inl q ↦ absurd (ground arith)
        | inr (j, q) ↦ ground arith
      ]
    ]

plain-same : (s t k : Text) → hasher none s ≡ some k → hasher none t ≡ some k → s ≡ t
plain-same s t k e f = ground arith

-- A composite yields a key only if every part yields a value, and then the key is the hash of the
-- normalised join of all of them, in order.
composite→Yields :
    (n : Option Normaliser) (h : Option Hasher) (parts : List Keyer) (sep : Text) (r : Request)
    (k : Text)
    → composite n h parts sep r ≡ key k
    → (vs : List Text) × Yields r parts vs
      × (hasher h (normalise n (join vs (separator sep))) ≡ some k)
unfolding composite
composite→Yields n h [] sep r k e = absurd (ground arith)
composite→Yields n h (p ∷ ps) sep r k e = elim (Parts-cases (collect (p ∷ ps) r)) [
  | inl (vs, q) ↦
      (vs, collect→Yields (p ∷ ps) r vs q, hashed_join n h sep vs k (rw (q, composite) at e))
  | inr (inl q) ↦ absurd (ground arith)
  | inr (inr q) ↦ absurd (ground arith)
]

join-injective :
    (us vs : List Text)
    → length us ≡ length vs
    → All (Lacks b':') us
    → All (Lacks b':') vs
    → join us (b':' ∷ []) ≡ join vs (b':' ∷ [])
    → us ≡ vs
unfolding join
join-injective [] [] l a b e = refl
join-injective [] (v ∷ vs) l a b e = absurd (omega arith)
join-injective (u ∷ us) [] l a b e = absurd (omega arith)
join-injective (u ∷ []) (v ∷ []) l a b e = ap (λ t. t ∷ []) e
join-injective (u ∷ []) (v ∷ w ∷ vs) l a b e = absurd (omega arith)
join-injective (u ∷ x ∷ us) (v ∷ []) l a b e = absurd (omega arith)
join-injective (u ∷ x ∷ us) (v ∷ w ∷ vs) l a b e =
    let cut =
      sym (cut_byte-append b':' u (join (x ∷ us) (b':' ∷ [])) a.0)
      ∙ ap (cut_byte b':') e
      ∙ cut_byte-append b':' v (join (w ∷ vs) (b':' ∷ [])) b.0 in
    let rest = join-injective (x ∷ us) (w ∷ vs) (omega arith) a.1 b.1 (ground arith) in ground arith

-- With no normaliser, no hash and the default separator, two requests share a composite bucket only
-- if they agree in every part, as long as no part's value holds a colon.
pub composite-injective :
    (parts : List Keyer) (r s : Request) (us vs : List Text) (k : Text)
    → Yields r parts us
    → Yields s parts vs
    → All (Lacks b':') us
    → All (Lacks b':') vs
    → composite none none parts [] r ≡ key k
    → composite none none parts [] s ≡ key k
    → us ≡ vs
composite-injective parts r s us vs k yr ys lu lv er es =
    let (us', yr', hu) = composite→Yields none none parts [] r k er in
    let (vs', ys', hv) = composite→Yields none none parts [] s k es in
    let eu = Yields-unique r parts us us' yr yr' in
    let ev = Yields-unique s parts vs vs' ys ys' in
    join-injective us vs (Yields-length r parts us yr ∙ sym (Yields-length s parts vs ys)) lu lv (
      ap (λ t. join t (b':' ∷ [])) eu
      ∙ plain-same (join us' (b':' ∷ [])) (join vs' (b':' ∷ [])) k hu hv
      ∙ ap (λ t. join t (b':' ∷ [])) (sym ev))
