-- ===== src/Store/Capacity/Rate.antt =====
-- Runs of calls on the token bucket of Store/Capacity.
use forwardlimit.Common.{
  ℕ, suc, ◌+◌, ◌-◌, ◌*◌, ◌/◌, ◌≤◌, ◌<◌, ◌≡◌, Bool, true, false, List, [], ◌∷◌, if◌then◌else◌, leb,
  arith,
}
use native.Mathlib.Nat.{div-mul-le_self, add-mul, lt-div-mul-add, div-lt_iff_lt-mul}
use forwardlimit.Store.Capacity.{available, step}

-- How many were allowed.
abbrev pub count : List Bool → ℕ
count [] = 0
count (b ∷ bs) = (if b then 1 else 0) + count bs

abbrev pub sum : List ℕ → ℕ
sum [] = 0
sum (e ∷ es) = e + sum es

module _ (rate burst : ℕ) where
  -- The answers to calls, each so many milliseconds after the one before.
  abbrev pub answers : ℕ → List ℕ → List Bool
  answers c [] = []
  answers c (e ∷ es) = let g = step rate burst c e in g.allowed ∷ answers g.remaining es

  available-le : (c e : ℕ) → available rate burst c e * 1000 ≤ c * 1000 + e * suc rate
  available-le c e = ground (arith, div-mul-le_self (e * suc rate) 1000)

  spent : (n : ℕ) → (if leb 1 n then 1 else 0) + (n - 1) ≡ n
  spent n = ground arith

  -- A bucket of `c` tokens lets through no more than these and what the rate adds.
  pub count-answers :
      (c : ℕ) (es : List ℕ) → count (answers c es) * 1000 ≤ c * 1000 + sum es * suc rate
  count-answers c [] = omega arith
  count-answers c (e ∷ es) =
      let n = available rate burst c e in
      omega
        (arith, count-answers (n - 1) es, available-le c e, spent n, add-mul e (sum es) (suc rate))

  pub wait_bounds : (c e : ℕ) → (step rate burst c e).wait ≤ 1000
  wait_bounds c e =
      let short : (1000 + rate) / suc rate < 1001 =
        (div-lt_iff_lt-mul {k = suc rate} (omega arith)).1 (omega arith) in
      ground arith

  -- Once the time that it takes to gain a token has passed, a call is let through.
  pub step_due : (c e : ℕ) → 1 ≤ burst → 1000 ≤ e * suc rate → (step rate burst c e).allowed ≡ true
  step_due c e hb due = ground arith

  -- The wait that a rejected call is told is that time.
  pub wait_long :
      (c e : ℕ)
      → (step rate burst c e).allowed ≡ false
      → 1000 ≤ (step rate burst c e).wait * suc rate
  wait_long c e denied = ground (arith, lt-div-mul-add {a = 1000 + rate} {b = suc rate})
