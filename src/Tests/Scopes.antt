-- ===== src/Tests/Scopes.antt =====
-- The scope of a limiter of internal/limiter, on two patterns.
use forwardlimit.Common.{◌≡◌, ◌≢◌, ◌↔◌, ◌⊎◌, ap, ◌∙◌, true, Some, [], ◌∷◌, ◌++◌, arith}
use forwardlimit.Common.Text.{Text, codes, text_eq, to_lower, cut_suffix, cut_suffix-append}
use forwardlimit.Limiter.{normalise_path, matches_path}
use forwardlimit.Limiter.Scope.{Covers, matches_path_iff}
use forwardlimit.Tests.{login}

matches_path_iff_example : (matches_path login (codes "/api/users") ≡ true) ↔ (
    (login.paths ≡ []) ⊎ Some (Covers (to_lower (normalise_path (codes "/api/users")))) login.paths)
matches_path_iff_example = matches_path_iff login (codes "/api/users")

no_slash : (r : Text) → codes "/login" ≢ r ++ (b'/' ∷ [])
unfolding cut_suffix text_eq
no_slash r e =
    let q = ap (λ t. cut_suffix t (b'/' ∷ [])) e ∙ cut_suffix-append r (b'/' ∷ []) in ground arith
