-- ===== src/Config/Names.antt =====
-- The names of the limiters in a file that `File.Validate` of internal/config/file.go accepts.
use forwardlimit.Common.{◌≡◌, ◌≢◌, Bool, true, false, ◌||◌, List, [], ◌∷◌, ◌==◌, All, map, arith}
use forwardlimit.Common.Int.{ℤ}
use forwardlimit.Common.Text.{Text, eq→text_eq, Lacks}
use forwardlimit.Common.{Option}
use forwardlimit.Config.{LimiterSpec, File}
use forwardlimit.Config.Validation.{
  is_name, all_of, is_lower_or_digit, seen_before, name_problems, validate_limiter,
  validate_limiters, validate,
}
use forwardlimit.Config.Sound.{append_nil, validate_parts}

all_of-Lacks :
    (s : Text) → all_of (λ d. is_lower_or_digit d || d == b'_' || d == b'-') s ≡ true → Lacks b':' s
all_of-Lacks [] h = tt
all_of-Lacks (c ∷ s) h = ground (arith, all_of-Lacks s)

is_name-Lacks : (s : Text) → is_name s ≡ true → Lacks b':' s
is_name-Lacks [] h = tt
is_name-Lacks (c ∷ s) h = ground (arith, all_of-Lacks s)

-- Each text is new: it is neither among the ones seen nor later in the list.
abbrev pub AllNew : List Text → List Text → Type 0
AllNew seen [] = Unit
AllNew seen (n ∷ ns) = All (λ m. n ≢ m) seen × AllNew (n ∷ seen) ns

not_seen : (n : Text) (seen : List Text) → seen_before n seen ≡ false → All (λ m. n ≢ m) seen
not_seen n [] h = tt
not_seen n (m ∷ seen) h =
    ((λ e. absurd (ground (arith, eq→text_eq n m e))), not_seen n seen (ground arith))

module _ (exists : Text → Bool) (atoi : Text → Option ℤ) where
  name_problems_nil :
      (n : Text) (seen : List Text)
      → (name_problems exists atoi n seen).0 ≡ []
      → (is_name n ≡ true)
        × (seen_before n seen ≡ false)
        × ((name_problems exists atoi n seen).1 ≡ n ∷ seen)
  name_problems_nil n seen e = ground arith

  validate_limiters_names :
      (ls : List LimiterSpec) (seen : List Text)
      → validate_limiters exists atoi ls seen ≡ []
      → All (Lacks b':') (map (λ l. l.name) ls) × AllNew seen (map (λ l. l.name) ls)
  unfolding validate_limiters validate_limiter
  validate_limiters_names [] seen e = (tt, tt)
  validate_limiters_names (l ∷ ls) seen e =
      let (here, rest) = append_nil _ _ e in
      let named =
        (append_nil _ _
          (append_nil _ _ (append_nil _ _ (append_nil _ _ (append_nil _ _ here).0).0).0).0).0 in
      let (well_formed, unseen, after) = name_problems_nil l.name seen named in
      let (lacking, fresh) = validate_limiters_names ls (l.name ∷ seen) (rw after at rest) in
      ((is_name-Lacks l.name well_formed, lacking), (not_seen l.name seen unseen, fresh))

  -- In a file in which `Validate` finds no problem, no name of a limiter holds a colon and no two
  -- limiters have the same name.
  pub validate_names :
      (f : File)
      → validate exists atoi f ≡ []
      → All (Lacks b':') (map (λ l. l.name) f.limiters) × AllNew [] (map (λ l. l.name) f.limiters)
  validate_names f e =
      validate_limiters_names f.limiters [] (validate_parts exists atoi (λ p. Option.none) f e).1
