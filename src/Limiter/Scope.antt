-- ===== src/Limiter/Scope.antt =====
-- Which requests a limiter of internal/limiter applies to.
use forwardlimit.Common.{
  ℕ, suc, ◌≡◌, ◌≢◌, ◌↔◌, ◌⊎◌, inl, inr, refl, sym, ap, ◌∙◌, Bool, true, ◌||◌, Option, none, some,
  List, [], ◌∷◌, ◌++◌, append_assoc, arith, if◌then◌else◌, length, length-append, any, Some,
  any-Some, Bool-cases, Option-cases,
}
use forwardlimit.Common.Text.{
  Text, is_empty, text_eq, text_eq→eq, eq→text_eq, to_lower, equal_fold, cut_suffix,
  cut_suffix→append, cut_suffix-append, has_prefix, has_prefix→append, has_prefix-append,
}
use forwardlimit.Limiter.{Limiter, normalise_path, covers, is_nil, matches_path, applies}

abbrev pub subtree : Text
subtree = b'/' ∷ b'*' ∷ []

-- The path is the base itself, or lies under it.
abbrev pub IsUnder : Text → Text → Type 0
IsUnder path base = (base ≡ []) ⊎ (path ≡ base) ⊎ ((rest : Text) × (path ≡ base ++ (b'/' ∷ rest)))

-- What a pattern is documented to cover, of a path that is folded and has no slash at its end.
abbrev pub Covers : Text → Text → Type 0
Covers path pattern =
    ((base : Text) × (to_lower pattern ≡ base ++ subtree) × IsUnder path base)
    ⊎ (¬ ((base : Text) × (to_lower pattern ≡ base ++ subtree))
        × (path ≡ normalise_path (to_lower pattern)))

IsUnder-forth :
    (path base : Text)
    → (is_empty base || text_eq path base || has_prefix path (base ++ (b'/' ∷ []))) ≡ true
    → IsUnder path base
IsUnder-forth path [] h = inl refl
IsUnder-forth path (c ∷ base) h = elim (Bool-cases (text_eq path (c ∷ base))) [
  | inl e ↦ inr (inl (text_eq→eq path (c ∷ base) e))
  | inr e ↦
      let (rest, q) = has_prefix→append path ((c ∷ base) ++ (b'/' ∷ [])) (ground arith) in
      inr (inr (rest, q ∙ append_assoc (c ∷ base) (b'/' ∷ []) rest))
]

IsUnder-back :
    (path base : Text)
    → IsUnder path base
    → (is_empty base || text_eq path base || has_prefix path (base ++ (b'/' ∷ []))) ≡ true
IsUnder-back path base (inl e) = rw e refl
IsUnder-back path base (inr (inl e)) = ground (arith, eq→text_eq path base e)
IsUnder-back path base (inr (inr (rest, e))) =
    let q : has_prefix path (base ++ (b'/' ∷ [])) ≡ true =
      rw (e, ← append_assoc base (b'/' ∷ []) rest) (has_prefix-append (base ++ (b'/' ∷ [])) rest) in
    ground arith

Covers-forth : (path pattern : Text) → covers path pattern ≡ true → Covers path pattern
unfolding covers
Covers-forth path pattern h = elim (Option-cases (cut_suffix (to_lower pattern) subtree)) [
  | inl e ↦ inr (
    (λ (base, q). absurd (ground (arith, cut_suffix-append base subtree))),
    text_eq→eq path (normalise_path (to_lower pattern)) (rw (e, covers) at h),
  )
  | inr (base, e) ↦ inl (
    base,
    cut_suffix→append (to_lower pattern) subtree base e,
    IsUnder-forth path base (rw (e, covers) at h),
  )
]

Covers-back : (path pattern : Text) → Covers path pattern → covers path pattern ≡ true
unfolding covers
Covers-back path pattern (inl (base, e, u)) =
    rw (e, covers) (rw (cut_suffix-append base subtree, covers) (IsUnder-back path base u))
Covers-back path pattern (inr (n, e)) =
    elim (Option-cases (cut_suffix (to_lower pattern) subtree)) [
      | inl q ↦ rw (q, covers) (eq→text_eq path (normalise_path (to_lower pattern)) e)
      | inr (base, q) ↦ absurd (n (base, cut_suffix→append (to_lower pattern) subtree base q))
    ]

covers_iff : (path pattern : Text) → (covers path pattern ≡ true) ↔ Covers path pattern
covers_iff path pattern = (Covers-forth path pattern, Covers-back path pattern)

paths_iff :
    (path : Text) (ps : List Text)
    → ((if is_nil ps then true else any (covers path) ps) ≡ true)
      ↔ ((ps ≡ []) ⊎ Some (Covers path) ps)
paths_iff path [] = ((λ _. inl refl), λ _. refl)
paths_iff path (p ∷ ps) =
    let found = any-Some (covers path) (Covers path) (p ∷ ps) (covers_iff path) in
    ((λ h. inr (found.0 h)), λ e. elim e [ inl q ↦ cc | inr q ↦ found.1 q ])

-- A limiter is scoped to a path exactly when it lists no pattern or one of them covers the path,
-- folded and without a slash at its end: a pattern `base/*` covers `base` and what is under it, with
-- an empty base every path; any other pattern covers the path that it spells, case and a slash at its
-- end aside.
pub matches_path_iff :
    (l : Limiter) (path : Text)
    → (matches_path l path ≡ true)
      ↔ ((l.paths ≡ []) ⊎ Some (Covers (to_lower (normalise_path path))) l.paths)
unfolding matches_path
matches_path_iff l path = paths_iff (to_lower (normalise_path path)) l.paths

abbrev fold_option : Option Text → Option Text
fold_option none = none
fold_option (some s) = some (to_lower s)

last_slash :
    (c : ℕ) (s : Text) → text_eq (to_lower (c ∷ s)) (b'/' ∷ []) ≡ text_eq (c ∷ s) (b'/' ∷ [])
unfolding text_eq to_lower
last_slash c [] = ground arith
last_slash c (d ∷ s) = ground arith

cut_suffix-to_lower :
    (s : Text) → cut_suffix (to_lower s) (b'/' ∷ []) ≡ fold_option (cut_suffix s (b'/' ∷ []))
unfolding cut_suffix to_lower text_eq
cut_suffix-to_lower [] = refl
cut_suffix-to_lower (c ∷ s) = ground (arith, last_slash c s, cut_suffix-to_lower s)

length-to_lower : (s : Text) → length (to_lower s) ≡ length s
unfolding to_lower
length-to_lower [] = refl
length-to_lower (c ∷ s) = ap suc (length-to_lower s)

normalise_path-to_lower : (p : Text) → normalise_path (to_lower p) ≡ to_lower (normalise_path p)
unfolding normalise_path
normalise_path-to_lower p = ground (arith, length-to_lower p, cut_suffix-to_lower p)

any-ext : (p q : Text → Bool) (xs : List Text) → ((x : Text) → p x ≡ q x) → any p xs ≡ any q xs
any-ext p q [] h = refl
any-ext p q (x ∷ xs) h = ground (arith, h x, any-ext p q xs h)

equal_fold-ext : (s t u : Text) → to_lower s ≡ to_lower t → equal_fold s u ≡ equal_fold t u
unfolding equal_fold
equal_fold-ext s t u e = rw e refl

-- The case of a request decides nothing: two requests whose paths differ only in case, and whose
-- methods do, are in the scope of the same limiters.
applies-fold :
    (l : Limiter) (p q m n : Text)
    → to_lower p ≡ to_lower q
    → to_lower m ≡ to_lower n
    → applies l p m ≡ applies l q n
unfolding applies
applies-fold l p q m n e f =
    let folded : to_lower (normalise_path p) ≡ to_lower (normalise_path q) =
      sym (normalise_path-to_lower p) ∙ ap normalise_path e ∙ normalise_path-to_lower q in
    rw (folded, any-ext (equal_fold m) (equal_fold n) l.methods (λ x. equal_fold-ext m n x f)) refl

normalise-slash :
    (c : ℕ) (p : Text)
    → ((r : Text) → c ∷ p ≢ r ++ (b'/' ∷ []))
    → (normalise_path (c ∷ p ++ (b'/' ∷ [])) ≡ c ∷ p) × (normalise_path (c ∷ p) ≡ c ∷ p)
unfolding normalise_path
normalise-slash c p n =
    let whole = cut_suffix-append (c ∷ p) (b'/' ∷ []) in
    let longer = length-append p (b'/' ∷ []) in
    elim (Option-cases (cut_suffix (c ∷ p) (b'/' ∷ []))) [
      | inl e ↦ (ground arith, ground arith)
      | inr (r, e) ↦ absurd (n r (cut_suffix→append (c ∷ p) (b'/' ∷ []) r e))
    ]

-- One slash at the end of a path decides nothing either, except of the root.
applies-slash :
    (l : Limiter) (p m : Text)
    → p ≢ []
    → ((r : Text) → p ≢ r ++ (b'/' ∷ []))
    → applies l (p ++ (b'/' ∷ [])) m ≡ applies l p m
unfolding applies
applies-slash l [] m h n = absurd (h refl)
applies-slash l (c ∷ p) m h n = let (e, f) = normalise-slash c p n in rw (e, f) refl
