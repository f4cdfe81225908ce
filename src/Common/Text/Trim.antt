-- ===== src/Common/Text/Trim.antt =====
-- strings.TrimSpace, on the ASCII white space.
use Prim.Native.Nat.{ℕ}
use mathlib.Core.Path.{◌≡◌, refl, ap, ◌∙◌}
use mathlib.Core.Bool.{Bool, true, not, ◌&&◌, ◌||◌}
use mathlib.Core.List.{[], ◌∷◌}
use native.Mathlib.Omega.{arith}
use forwardlimit.Common.Tests.{leb, ◌==◌, if◌then◌else◌}
use forwardlimit.Common.Text.Bytes.{Text, is_empty, codes}

unfoldable pub is_space : ℕ → Bool
is_space c = c == 32 || (leb 9 c && leb c 13)

unfoldable pub trim_left : Text → Text
unfolding is_space
trim_left [] = []
trim_left (c ∷ s) = if is_space c then trim_left s else c ∷ s

unfoldable pub trim_right : Text → Text
unfolding is_space
trim_right [] = []
trim_right (c ∷ s) = let rest = trim_right s in if is_empty rest && is_space c then [] else c ∷ rest

unfoldable pub trim_space : Text → Text
unfolding trim_left trim_right
trim_space s = trim_right (trim_left s)

trimmed : trim_space (codes " \ta b  ") ≡ codes "a b"
unfolding trim_space
trimmed = refl

-- The text is empty, or starts with no space.
abbrev starts_clean : Text → Bool
starts_clean [] = true
starts_clean (c ∷ s) = not (is_space c)

trim_left-starts_clean : (s : Text) → starts_clean (trim_left s) ≡ true
unfolding trim_left
trim_left-starts_clean [] = refl
trim_left-starts_clean (c ∷ s) = ground (arith, trim_left-starts_clean s)

trim_right-starts_clean : (s : Text) → starts_clean s ≡ true → starts_clean (trim_right s) ≡ true
unfolding trim_right
trim_right-starts_clean [] h = refl
trim_right-starts_clean (c ∷ s) h = ground arith

trim_left-clean : (s : Text) → starts_clean s ≡ true → trim_left s ≡ s
unfolding trim_left
trim_left-clean [] h = refl
trim_left-clean (c ∷ s) h = ground arith

trim_right_idem : (s : Text) → trim_right (trim_right s) ≡ trim_right s
unfolding trim_right
trim_right_idem [] = refl
trim_right_idem (c ∷ s) = ground (arith, trim_right_idem s)

pub trim_space_idem : (s : Text) → trim_space (trim_space s) ≡ trim_space s
unfolding trim_space
trim_space_idem s =
    ap trim_right (
      trim_left-clean (trim_right (trim_left s))
        (trim_right-starts_clean (trim_left s) (trim_left-starts_clean s)))
    ∙ trim_right_idem (trim_left s)
