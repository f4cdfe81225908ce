-- ===== src/Observability/Fresh.antt =====
-- Names that a registry takes: what internal/observability/observability.go registers must be new.
use mathlib.Core.List.{append_cancel_left}
use forwardlimit.Common.{
  ◌≡◌, ◌≢◌, refl, ap, true, false, List, [], ◌∷◌, ◌++◌, map, append_assoc, append-nil, All,
  All-append, All-map,
}
use forwardlimit.Common.Text.{Text, has_prefix}

-- Each name is new when its turn comes: it is none of the ones seen before it.
abbrev pub Fresh : List Text → List Text → Type 0
Fresh seen [] = Unit
Fresh seen (n ∷ ns) = All (λ m. n ≢ m) seen × Fresh (seen ++ (n ∷ [])) ns

-- To take two lists one after the other is to take both at once.
pub Fresh-append :
    (seen xs ys : List Text) → Fresh seen (xs ++ ys) → Fresh seen xs × Fresh (seen ++ xs) ys
Fresh-append seen [] ys h = (tt, rw (append-nil seen) h)
Fresh-append seen (x ∷ xs) ys h =
    let (a, b) = Fresh-append (seen ++ (x ∷ [])) xs ys h.1 in
    ((h.0, a), rw (← append_assoc seen (x ∷ []) xs) b)

pub append-Fresh :
    (seen xs ys : List Text) → Fresh seen xs → Fresh (seen ++ xs) ys → Fresh seen (xs ++ ys)
append-Fresh seen [] ys a b = rw (← append-nil seen) b
append-Fresh seen (x ∷ xs) ys a b =
    (a.0, append-Fresh (seen ++ (x ∷ [])) xs ys a.1 (rw (append_assoc seen (x ∷ []) xs) b))

-- More may have been seen, if it differs from what is to come.
pub Fresh-after :
    (more seen xs : List Text)
    → All (λ x. All (λ m. x ≢ m) more) xs
    → Fresh seen xs
    → Fresh (more ++ seen) xs
Fresh-after more seen [] d h = tt
Fresh-after more seen (x ∷ xs) d h = (
  All-append (λ m. x ≢ m) more seen d.0 h.0,
  rw (append_assoc more seen (x ∷ [])) (Fresh-after more (seen ++ (x ∷ [])) xs d.1 h.1),
)

All-prepended :
    (p x : Text) (ms : List Text)
    → All (λ m. x ≢ m) ms
    → All (λ m. p ++ x ≢ m) (map (λ m. p ++ m) ms)
All-prepended p x [] h = tt
All-prepended p x (m ∷ ms) h = (λ e. h.0 (append_cancel_left p x m e), All-prepended p x ms h.1)

map-snoc :
    (p x : Text) (ms : List Text)
    → map (λ m. p ++ m) (ms ++ (x ∷ [])) ≡ map (λ m. p ++ m) ms ++ ((p ++ x) ∷ [])
map-snoc p x [] = refl
map-snoc p x (m ∷ ms) = ap (λ (l : List Text). (p ++ m) ∷ l) (map-snoc p x ms)

-- One prefix for all keeps names apart.
pub Fresh-map :
    (p : Text) (seen xs : List Text)
    → Fresh seen xs
    → Fresh (map (λ m. p ++ m) seen) (map (λ m. p ++ m) xs)
Fresh-map p seen [] h = tt
Fresh-map p seen (x ∷ xs) h =
    (All-prepended p x seen h.0, rw (← map-snoc p x seen) (Fresh-map p (seen ++ (x ∷ [])) xs h.1))

-- Names with a prefix differ from the names that lack it.
pub prefix-apart :
    (p : Text) (more xs : List Text)
    → All (λ m. has_prefix m p ≡ false) more
    → All (λ x. has_prefix x p ≡ true) xs
    → All (λ x. All (λ m. x ≢ m) more) xs
prefix-apart p more xs lack have =
    All-map (λ x. has_prefix x p ≡ true) (λ x. All (λ m. x ≢ m) more) xs
      (λ x y. All-map (λ m. has_prefix m p ≡ false) (λ m. x ≢ m) more (λ m n. λ e. cc) lack) have
