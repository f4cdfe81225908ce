-- ===== src/Common/Int.antt =====
-- Signed integers over the native numbers, and Go's int64 arithmetic on them.
use Prim.Native.Nat.{ℕ, zero, suc, ◌+◌, ◌-◌, ◌%◌, ◌≤◌, ◌<◌}
use mathlib.Core.Path.{◌≡◌, refl}
use mathlib.Core.Bool.{Bool}
use native.Mathlib.Omega.{arith}
use forwardlimit.Common.Tests.{ltb, leb, if◌then◌else◌}

-- `negsuc n` is -(n + 1).
pub data ℤ : Type 0 where
  pos : ℕ → ℤ
  negsuc : ℕ → ℤ

abbrev pub pos_part : ℤ → ℕ
pos_part (pos n) = n
pos_part (negsuc n) = 0

abbrev pub neg_part : ℤ → ℕ
neg_part (pos n) = 0
neg_part (negsuc n) = suc n

-- a - b, as an integer.
abbrev pub sub_ℕ : ℕ → ℕ → ℤ
sub_ℕ a b = if leb b a then pos (a - b) else negsuc (b - a - 1)

infix 50 ◌≤ℤ◌ ◌<ℤ◌
abbrev pub ◌≤ℤ◌ : ℤ → ℤ → Type 0
a ≤ℤ b = pos_part a + neg_part b ≤ pos_part b + neg_part a

abbrev pub ◌<ℤ◌ : ℤ → ℤ → Type 0
a <ℤ b = pos_part a + neg_part b < pos_part b + neg_part a

abbrev pub ltb_ℤ : ℤ → ℤ → Bool
ltb_ℤ a b = ltb (pos_part a + neg_part b) (pos_part b + neg_part a)

abbrev pub leb_ℤ : ℤ → ℤ → Bool
leb_ℤ a b = leb (pos_part a + neg_part b) (pos_part b + neg_part a)

abbrev pub two_63 : ℕ
two_63 = 9_223_372_036_854_775_808

-- Two's complement: the int64 that the unbounded result wraps to.
unfoldable pub wrap : ℤ → ℤ
wrap (pos n) =
    let m = n % (two_63 + two_63) in
    if ltb m two_63 then pos m else negsuc (two_63 + two_63 - 1 - m)
wrap (negsuc n) =
    let m = n % (two_63 + two_63) in
    if ltb m two_63 then negsuc m else pos (two_63 + two_63 - 1 - m)

-- The largest and smallest int64, where `Time.Sub` stops.
unfoldable pub saturate : ℤ → ℤ
saturate (pos n) = if ltb n two_63 then pos n else pos (two_63 - 1)
saturate (negsuc n) = if ltb n two_63 then negsuc n else negsuc (two_63 - 1)

-- `n++` on an int64.
unfoldable pub increment : ℤ → ℤ
unfolding wrap
increment (pos n) = wrap (pos (suc n))
increment (negsuc zero) = pos 0
increment (negsuc (suc n)) = negsuc n

pub increment-pos : (n : ℕ) → suc n < two_63 → increment (pos n) ≡ pos (suc n)
unfolding increment
increment-pos n h = ground arith

pub wrap-pos : (n : ℕ) → n < two_63 → wrap (pos n) ≡ pos n
unfolding wrap
wrap-pos n h = ground arith

pub saturate-pos : (n : ℕ) → n < two_63 → saturate (pos n) ≡ pos n
unfolding saturate
saturate-pos n h = ground arith

wrap_overflow : wrap (pos two_63) ≡ negsuc (two_63 - 1)
unfolding wrap
wrap_overflow = refl
