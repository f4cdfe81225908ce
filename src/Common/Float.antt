-- ===== src/Common/Float.antt =====
-- The float64 arithmetic that the token buckets use, in Go and in Lua: a parameter.
use forwardlimit.Common.{ℕ, suc, ◌+◌, ◌-◌, ◌*◌, ◌/◌, ◌≤◌, ◌<◌, ◌≡◌, Bool, ltb, leb}
use forwardlimit.Common.Int.{ℤ, pos, two_63}

-- `truncate` is the conversion to an int64; `seconds` is `Duration.Seconds`; `floor` and `ceil` are
-- those of Lua.
pub record Float (F : Type 0) : Type 0 where
  pub of_int : ℤ → F
  pub add : F → F → F
  pub sub : F → F → F
  pub mul : F → F → F
  pub div : F → F → F
  pub lt : F → F → Bool
  pub le : F → F → Bool
  pub floor : F → F
  pub ceil : F → F
  pub truncate : F → ℤ
  pub seconds : ℤ → F

abbrev pub two_53 : ℕ
two_53 = 9_007_199_254_740_992

module _ {F : Type 0} (float : Float F) where
  -- A float64 holds the integers up to 2^53, and is exact as long as it stays among them.
  pub record Exact : Type 0 where
    pub add_int :
        (a b : ℕ)
        → a + b ≤ two_53
        → float.add (float.of_int (pos a)) (float.of_int (pos b)) ≡ float.of_int (pos (a + b))
    pub sub_int :
        (a b : ℕ)
        → a ≤ two_53
        → b ≤ a
        → float.sub (float.of_int (pos a)) (float.of_int (pos b)) ≡ float.of_int (pos (a - b))
    pub mul_int :
        (a b : ℕ)
        → a * b ≤ two_53
        → float.mul (float.of_int (pos a)) (float.of_int (pos b)) ≡ float.of_int (pos (a * b))
    pub div_floor :
        (a b : ℕ)
        → a ≤ two_53
        → suc b ≤ two_53
        → float.floor (float.div (float.of_int (pos a)) (float.of_int (pos (suc b))))
          ≡ float.of_int (pos (a / suc b))
    pub div_whole :
        (a b : ℕ)
        → a * suc b ≤ two_53
        → float.div (float.of_int (pos (a * suc b))) (float.of_int (pos (suc b)))
          ≡ float.of_int (pos a)
    pub div_ceil :
        (a b : ℕ)
        → a ≤ two_53
        → suc b ≤ two_53
        → float.ceil (float.div (float.of_int (pos a)) (float.of_int (pos (suc b))))
          ≡ float.of_int (pos ((a + b) / suc b))
    pub floor_int : (a : ℕ) → a ≤ two_53 → float.floor (float.of_int (pos a)) ≡ float.of_int (pos a)
    pub truncate_int : (a : ℕ) → a ≤ two_53 → float.truncate (float.of_int (pos a)) ≡ pos a
    pub seconds_int :
        (a : ℕ)
        → a * 1_000_000_000 < two_63
        → float.seconds (pos (a * 1_000_000_000)) ≡ float.of_int (pos a)
    pub lt_int :
        (a b : ℕ)
        → a ≤ two_53
        → b ≤ two_53
        → float.lt (float.of_int (pos a)) (float.of_int (pos b)) ≡ ltb a b
    pub le_int :
        (a b : ℕ)
        → a ≤ two_53
        → b ≤ two_53
        → float.le (float.of_int (pos a)) (float.of_int (pos b)) ≡ leb a b
