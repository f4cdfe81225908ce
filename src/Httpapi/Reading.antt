-- ===== src/Httpapi/Reading.antt =====
-- `readBody` of internal/httpapi/httpapi.go.
use forwardlimit.Common.{
  ℕ, zero, suc, ◌-◌, ◌≤◌, ◌<◌, ◌≡◌, refl, Bool, true, false, ◌&&◌, Option, none, some, [], ◌∷◌,
  if◌then◌else◌, ltb, length, take, length-take, arith,
}
use forwardlimit.Common.Int.{ℤ, pos, two_63, increment, increment-pos, ltb_ℤ, pos_part}
use forwardlimit.Common.Text.{Text}
use forwardlimit.Httpapi.{Body, absent, stream}

-- `io.ReadAll(io.LimitReader(body, n))`: nothing is read for a limit that is not positive, and an
-- error of the body is met only if the limit was not reached before; `none` is an error.
unfoldable pub read_limited : ℕ → Text → Bool → Option Text
read_limited n bytes broken = if broken && ltb (length bytes) n then none else some (take n bytes)

-- The body, and whether it was cut off. The limit is `maxBody + 1`, in int64.
unfoldable pub read_body : ℤ → Body → Text × Bool
unfolding read_limited
read_body max_body absent = ([], false)
read_body max_body (stream bytes broken) =
    elim (read_limited (pos_part (increment max_body)) bytes broken) [
      | none ↦ ([], false)
      | some b ↦
          if ltb_ℤ max_body (pos (length b)) then (take (pos_part max_body) b, true) else (b, false)
    ]

take_all : (n : ℕ) (s : Text) → length s ≤ n → take n s ≡ s
take_all zero [] h = refl
take_all zero (c ∷ s) h = absurd (omega arith)
take_all (suc n) [] h = refl
take_all (suc n) (c ∷ s) h = ground (arith, take_all n s)

take-take : (n : ℕ) (s : Text) → take n (take (suc n) s) ≡ take n s
take-take zero s = refl
take-take (suc n) [] = refl
take-take (suc n) (c ∷ s) = ground (arith, take-take n s)

-- For every limit `n` below the largest int64: a body of at most `n` bytes that arrives whole is read
-- whole, and one that breaks off within the limit is read as nothing; a longer one is cut to its first
-- `n` bytes and reported as cut, even if it would have broken off later.
pub read_body-bounded :
    (n : ℕ) (bytes : Text) (broken : Bool)
    → suc n < two_63
    → read_body (pos n) (stream bytes broken) ≡ (
        if ltb n (length bytes)
        then (take n bytes, true)
        else if broken
        then ([], false)
        else (bytes, false))
unfolding read_body
read_body-bounded n bytes broken h =
    rw (increment-pos n h, read_body)
      (ground (arith, take_all (suc n) bytes, length-take (suc n) bytes, take-take n bytes))

-- With the largest int64 as the limit the extra byte overflows: every body is read as empty, and the
-- cut is not reported.
pub read_body_overflow :
    (bytes : Text) → read_body (pos (two_63 - 1)) (stream bytes false) ≡ ([], false)
unfolding read_body increment
read_body_overflow bytes = refl
