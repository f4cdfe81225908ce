-- ===== src/Common/Text/Fold.antt =====
-- strings.ToLower, strings.ToUpper and strings.EqualFold, on ASCII bytes; other bytes stay as they are.
use Prim.Native.Nat.{ℕ, ◌+◌, ◌-◌, ◌≤◌}
use mathlib.Core.Path.{◌≡◌, refl, ap}
use mathlib.Core.Logic.{◌↔◌}
use mathlib.Core.Bool.{Bool, true, ◌&&◌}
use mathlib.Core.List.{[], ◌∷◌, ◌++◌}
use native.Mathlib.Omega.{arith}
use forwardlimit.Common.Tests.{leb, if◌then◌else◌}
use forwardlimit.Common.Text.Bytes.{Text, text_eq, text_eq_iff, codes}

unfoldable pub lower_byte : ℕ → ℕ
lower_byte c = if leb b'A' c && leb c b'Z' then c + 32 else c

unfoldable pub upper_byte : ℕ → ℕ
upper_byte c = if leb b'a' c && leb c b'z' then c - 32 else c

unfoldable pub to_lower : Text → Text
unfolding lower_byte
to_lower [] = []
to_lower (c ∷ s) = lower_byte c ∷ to_lower s

unfoldable pub to_upper : Text → Text
unfolding upper_byte
to_upper [] = []
to_upper (c ∷ s) = upper_byte c ∷ to_upper s

unfoldable pub equal_fold : Text → Text → Bool
unfolding to_lower text_eq
equal_fold s t = text_eq (to_lower s) (to_lower t)

pub lower_byte_idem : (c : ℕ) → lower_byte (lower_byte c) ≡ lower_byte c
unfolding lower_byte
lower_byte_idem c = ground arith

-- A byte outside the letters is the image of itself alone.
pub lower_byte_other : (c : ℕ) → c ≤ 64 → lower_byte c ≡ c
unfolding lower_byte
lower_byte_other c h = ground arith

pub to_lower_idem : (s : Text) → to_lower (to_lower s) ≡ to_lower s
unfolding to_lower
to_lower_idem [] = refl
to_lower_idem (c ∷ s) = cc (lower_byte_idem c, to_lower_idem s)

pub to_lower-append : (s t : Text) → to_lower (s ++ t) ≡ to_lower s ++ to_lower t
unfolding to_lower
to_lower-append [] t = refl
to_lower-append (c ∷ s) t = ap (◌∷◌ (lower_byte c)) (to_lower-append s t)

-- Two letters have one lower case exactly when they have one upper case.
lower_byte-upper_byte : (c d : ℕ) → (lower_byte c ≡ lower_byte d) ↔ (upper_byte c ≡ upper_byte d)
unfolding lower_byte upper_byte
lower_byte-upper_byte c d = ground arith

pub equal_fold_iff : (s t : Text) → (equal_fold s t ≡ true) ↔ (to_lower s ≡ to_lower t)
unfolding equal_fold
equal_fold_iff s t = text_eq_iff (to_lower s) (to_lower t)

folded : to_lower (codes "/V1/Login") ≡ codes "/v1/login"
unfolding to_lower
folded = refl
