-- ===== src/Common/Text/Affix.antt =====
-- strings.HasPrefix, strings.CutSuffix, strings.TrimSuffix, strings.HasSuffix and strings.Contains.
use Prim.Native.Nat.{ℕ}
use mathlib.Core.Path.{◌≡◌, refl, ap}
use mathlib.Core.Logic.{◌↔◌, inl, inr}
use mathlib.Core.Bool.{Bool, true, false, ◌&&◌}
use mathlib.Core.Option.{Option, none, some}
use mathlib.Core.List.{[], ◌∷◌, ◌++◌}
use native.Mathlib.Omega.{arith}
use forwardlimit.Common.Tests.{◌==◌, if◌then◌else◌, Bool-cases}
use forwardlimit.Common.Lists.{length, length-append}
use forwardlimit.Common.Text.Bytes.{Text, text_eq, text_eq_refl, text_eq→eq, codes}

unfoldable pub has_prefix : Text → Text → Bool
has_prefix s [] = true
has_prefix [] (d ∷ t) = false
has_prefix (c ∷ s) (d ∷ t) = c == d && has_prefix s t

abbrev prepend : ℕ → Option Text → Option Text
prepend c none = none
prepend c (some s) = some (c ∷ s)

-- `none` where the suffix is not there, as for `ok == false`.
unfoldable pub cut_suffix : Text → Text → Option Text
unfolding text_eq
cut_suffix [] suffix = if text_eq [] suffix then some [] else none
cut_suffix (c ∷ s) suffix =
    let rest = cut_suffix s suffix in if text_eq (c ∷ s) suffix then some [] else prepend c rest

abbrev or_whole : Text → Option Text → Text
or_whole s none = s
or_whole s (some t) = t

unfoldable pub trim_suffix : Text → Text → Text
unfolding cut_suffix
trim_suffix s suffix = or_whole s (cut_suffix s suffix)

-- A prefix is there exactly when the text is it and something behind it.
pub has_prefix→append : (s t : Text) → has_prefix s t ≡ true → (r : Text) × (s ≡ t ++ r)
unfolding has_prefix
has_prefix→append s [] h = (s, refl)
has_prefix→append [] (d ∷ t) h = cc
has_prefix→append (c ∷ s) (d ∷ t) h =
    let (r, e) = has_prefix→append s t (ground arith) in (r, ground arith)

pub has_prefix-append : (t r : Text) → has_prefix (t ++ r) t ≡ true
unfolding has_prefix
has_prefix-append [] r = refl
has_prefix-append (d ∷ t) r = ground (arith, has_prefix-append t r)

pub cut_suffix→append : (s t r : Text) → cut_suffix s t ≡ some r → s ≡ r ++ t
unfolding cut_suffix
cut_suffix→append [] t r h = ground (arith, text_eq→eq [] t)
cut_suffix→append (c ∷ s) t [] h = ground (arith, text_eq→eq (c ∷ s) t)
cut_suffix→append (c ∷ s) t (d ∷ r) h = ground (arith, cut_suffix→append s t r)

longer : (d : ℕ) (r t : Text) → text_eq (d ∷ r ++ t) t ≡ false
longer d r t = elim (Bool-cases (text_eq (d ∷ r ++ t) t)) [
  | inl e ↦ absurd (omega (arith, ap length (text_eq→eq (d ∷ r ++ t) t e), length-append r t))
  | inr e ↦ e
]

pub cut_suffix-append : (r t : Text) → cut_suffix (r ++ t) t ≡ some r
unfolding cut_suffix
cut_suffix-append [] [] = ground arith
cut_suffix-append [] (c ∷ t) = ground (arith, text_eq_refl (c ∷ t))
cut_suffix-append (d ∷ r) t = ground (arith, longer d r t, cut_suffix-append r t)

-- A suffix is cut off exactly when the text ends in it.
pub cut_suffix_iff : (s t r : Text) → (cut_suffix s t ≡ some r) ↔ (s ≡ r ++ t)
cut_suffix_iff s t r = (cut_suffix→append s t r, λ e. rw e (cut_suffix-append r t))

cut : cut_suffix (codes "/v1/*") (codes "/*") ≡ some (codes "/v1")
unfolding cut_suffix
cut = refl
