-- ===== src/Common/Decimal.antt =====
-- strconv.FormatInt in base ten.
use forwardlimit.Common.{
  ℕ, zero, suc, ◌+◌, ◌-◌, ◌*◌, ◌/◌, ◌%◌, ◌<◌, ◌≡◌, refl, [], ◌∷◌, ◌++◌, if◌then◌else◌, ltb, arith,
}
use forwardlimit.Common.Int.{ℤ, pos, negsuc}
use forwardlimit.Common.Text.{Text, codes}

-- On fuel; `suc n` rounds are enough for `n`.
digits : ℕ → ℕ → Text
digits zero n = []
digits (suc f) n =
    let front = digits f (n / 10) in
    if ltb n 10 then (b'0' + n) ∷ [] else front ++ ((b'0' + n % 10) ∷ [])

unfoldable pub format_nat : ℕ → Text
unfolding digits
format_nat n = digits (suc n) n

unfoldable pub format_int : ℤ → Text
unfolding format_nat
format_int (pos n) = format_nat n
format_int (negsuc n) = b'-' ∷ format_nat (suc n)

-- What decimal digits stand for.
abbrev pub value_from : ℕ → Text → ℕ
value_from acc [] = acc
value_from acc (c ∷ s) = value_from (acc * 10 + (c - b'0')) s

value_from-append :
    (acc : ℕ) (s t : Text) → value_from acc (s ++ t) ≡ value_from (value_from acc s) t
value_from-append acc [] t = refl
value_from-append acc (c ∷ s) t = value_from-append (acc * 10 + (c - b'0')) s t

digits-value : (f n : ℕ) → n < f → value_from 0 (digits f n) ≡ n
unfolding digits
digits-value zero n h = elim h [ ]
digits-value (suc f) n h =
    ground (
      arith,
      value_from-append 0 (digits f (n / 10)) ((b'0' + n % 10) ∷ []),
      digits-value f (n / 10),
    )

pub format_nat-value : (n : ℕ) → value_from 0 (format_nat n) ≡ n
unfolding format_nat
format_nat-value n = digits-value (suc n) n (omega arith)

formatted : format_nat 3600 ≡ codes "3600"
unfolding format_nat
formatted = refl
