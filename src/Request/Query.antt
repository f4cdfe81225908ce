-- ===== src/Request/Query.antt =====
-- When `QueryValue` of internal/limiter/request.go finds nothing.
use forwardlimit.Common.{
  ◌≡◌, refl, true, false, ◌&&◌, not, Option, none, some, List, [], ◌∷◌, All, Bool-cases, inl, inr,
  arith,
}
use forwardlimit.Common.Text.{Text, is_empty, equal_fold, trim_space}
use forwardlimit.Request.{Request, or_else, query_value, scan_exact, scan_entries, scan_folded}

-- The entry is for another name, or its first value is blank.
abbrev pub IsBlankFor : Text → Text × List Text → Type 0
IsBlankFor n (k, []) = Unit
IsBlankFor n (k, v ∷ vs) = equal_fold k n ≡ true → is_empty (trim_space v) ≡ true

or_else-none : {A : Type 0} (o p : Option A) → or_else o p ≡ none → (o ≡ none) × (p ≡ none)
or_else-none none p e = (refl, e)
or_else-none (some a) p e = absurd (ground arith)

scan_entries-none :
    (m : List (Text × List Text)) (n : Text) → scan_entries m n ≡ none → All (IsBlankFor n) m
unfolding scan_entries
scan_entries-none [] n e = tt
scan_entries-none ((k, []) ∷ m) n e = (tt, scan_entries-none m n e)
scan_entries-none ((k, v ∷ vs) ∷ m) n e =
    elim (Bool-cases (equal_fold k n && not (is_empty (trim_space v)))) [
      | inl y ↦ absurd (ground (arith, y, e))
      | inr y ↦ ((λ q. ground (arith, y, q)), scan_entries-none m n (ground (arith, y, e)))
    ]

scan_folded-none :
    (m : List (Text × List Text)) (names : List Text)
    → scan_folded m names ≡ none
    → All (λ n. All (IsBlankFor n) m) names
unfolding scan_folded
scan_folded-none m [] e = tt
scan_folded-none m (n ∷ names) e =
    let (here, rest) = or_else-none (scan_entries m n) (scan_folded m names) e in
    (scan_entries-none m n here, scan_folded-none m names rest)

-- No key is escaped by the case of a parameter: a query that is not empty yields nothing only if every
-- parameter that is one of the names, in whatever case, has a blank first value or no value.
pub query_value-none :
    (parse_query : Text → List (Text × List Text)) (r : Request) (names : List Text)
    → is_empty r.raw_query ≡ false
    → query_value parse_query r names ≡ none
    → All (λ n. All (IsBlankFor n) (parse_query r.raw_query)) names
unfolding query_value
query_value-none parse_query r names h e =
    let m = parse_query r.raw_query in
    scan_folded-none m names
      (or_else-none (scan_exact m names) (scan_folded m names) (rw (h, query_value) at e)).1
