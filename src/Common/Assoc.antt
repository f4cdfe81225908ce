-- ===== src/Common/Assoc.antt =====
-- A Go map with string keys, as an association list: `m[k]`, `m[k] = v`, `delete(m, k)`, and a
-- `delete` of the entries that fail a test. `length` is `len(m)` while the keys are distinct.
use forwardlimit.Common.{
  suc, ◌≤◌, ◌≡◌, refl, subst, Bool, true, false, Option, none, some, List, [], ◌∷◌, arith,
  if◌then◌else◌, length, All, Bool-cases, inl, inr,
}
use forwardlimit.Common.Int.{ℤ, pos}
use forwardlimit.Common.Text.{Text, text_eq, text_eq_iff, text_eq→eq, text_eq_sym}

abbrev pub is_some {ℓ} : {A : Type ℓ} → Option A → Bool
is_some none = false
is_some (some a) = true

-- An integer that is missing reads as zero.
abbrev pub or_zero : Option ℤ → ℤ
or_zero none = pos 0
or_zero (some n) = n

module _ {ℓ} {V : Type ℓ} where
  unfoldable pub lookup : Text → List (Text × V) → Option V
  lookup k [] = none
  lookup k ((j, v) ∷ m) = if text_eq j k then some v else lookup k m

  unfoldable pub insert : Text → V → List (Text × V) → List (Text × V)
  insert k v [] = (k, v) ∷ []
  insert k v ((j, w) ∷ m) = if text_eq j k then (k, v) ∷ m else (j, w) ∷ insert k v m

  unfoldable pub keep : (V → Bool) → List (Text × V) → List (Text × V)
  keep p [] = []
  keep p ((j, v) ∷ m) = let rest = keep p m in if p v then (j, v) ∷ rest else rest

  unfoldable pub remove : Text → List (Text × V) → List (Text × V)
  remove k [] = []
  remove k ((j, v) ∷ m) = let rest = remove k m in if text_eq j k then rest else (j, v) ∷ rest

  pub lookup-remove :
      (k j : Text) (m : List (Text × V))
      → lookup j (remove k m) ≡ (if text_eq k j then none else lookup j m)
  unfolding lookup remove
  lookup-remove k j [] = ground arith
  lookup-remove k j ((i, w) ∷ m) =
      ground (arith, text_eq_iff k j, text_eq_iff i k, text_eq_iff i j, lookup-remove k j m)

  -- No key stands twice.
  abbrev pub Distinct : List (Text × V) → Type ℓ
  Distinct [] = Unit
  Distinct ((j, v) ∷ m) = (lookup j m ≡ none) × Distinct m

  pub lookup-insert :
      (k j : Text) (v : V) (m : List (Text × V))
      → lookup j (insert k v m) ≡ (if text_eq k j then some v else lookup j m)
  unfolding lookup insert
  lookup-insert k j v [] = refl
  lookup-insert k j v ((i, w) ∷ m) =
      ground (arith, text_eq_iff k j, text_eq_iff i k, text_eq_iff i j, lookup-insert k j v m)

  pub length-insert :
      (k : Text) (v : V) (m : List (Text × V))
      → length (insert k v m) ≡ (if is_some (lookup k m) then length m else suc (length m))
  unfolding lookup insert
  length-insert k v [] = refl
  length-insert k v ((i, w) ∷ m) = ground (arith, length-insert k v m)

  pub insert-Distinct :
      (k : Text) (v : V) (m : List (Text × V)) → Distinct m → Distinct (insert k v m)
  unfolding insert
  insert-Distinct k v [] d = (unfold lookup in refl, tt)
  insert-Distinct k v ((i, w) ∷ m) d = elim (Bool-cases (text_eq i k)) [
    | inl e ↦ rw (e, insert) (rw (← text_eq→eq i k e) d.0, d.1)
    | inr e ↦
        rw (e, insert)
          (rw (lookup-insert k i v m, text_eq_sym k i, e) d.0, insert-Distinct k v m d.1)
  ]

  abbrev pub keep_option : (V → Bool) → Option V → Option V
  keep_option p none = none
  keep_option p (some v) = if p v then some v else none

  pub lookup-keep :
      (p : V → Bool) (k : Text) (m : List (Text × V))
      → Distinct m
      → lookup k (keep p m) ≡ keep_option p (lookup k m)
  unfolding lookup keep
  lookup-keep p k [] d = refl
  lookup-keep p k ((i, w) ∷ m) d = ground (arith, text_eq→eq i k, lookup-keep p k m d.1)

  pub length-keep : (p : V → Bool) (m : List (Text × V)) → length (keep p m) ≤ length m
  unfolding keep
  length-keep p [] = omega arith
  length-keep p ((i, w) ∷ m) = ground (arith, length-keep p m)

  pub lookup-All {κ} :
      (P : Text → V → Type κ) (k : Text) (v : V) (m : List (Text × V))
      → All (λ e. P e.0 e.1) m
      → lookup k m ≡ some v
      → P k v
  unfolding lookup
  lookup-All P k v [] a h = absurd (ground arith)
  lookup-All P k v ((i, w) ∷ m) a h = elim (Bool-cases (text_eq i k)) [
    | inl e ↦ subst (λ j. P j v) (text_eq→eq i k e) (subst (P i) (ground arith) a.0)
    | inr e ↦ lookup-All P k v m a.1 (ground arith)
  ]

  pub insert-All {κ} :
      (P : Text → V → Type κ) (k : Text) (v : V) (m : List (Text × V))
      → P k v
      → All (λ e. P e.0 e.1) m
      → All (λ e. P e.0 e.1) (insert k v m)
  unfolding insert
  insert-All P k v [] h a = (h, tt)
  insert-All P k v ((j, w) ∷ m) h a = elim (Bool-cases (text_eq j k)) [
    | inl e ↦ rw (e, insert) (h, a.1)
    | inr e ↦ rw (e, insert) (a.0, insert-All P k v m h a.1)
  ]
