-- ===== src/Store/Redis/Expiry.antt =====
-- The time after which a token bucket of internal/store/redisstore expires.
use forwardlimit.Common.{ℕ, suc, ◌+◌, ◌*◌, ◌/◌, ◌≤◌, ◌<◌, ◌≡◌, refl, true, ◌++◌, arith}
use native.Mathlib.Nat.{lt-div-mul-add, mul-le-mul_right, div-lt_iff_lt-mul, le-div_iff_mul-le}
use forwardlimit.Common.Int.{pos}
use forwardlimit.Common.Float.{Float, Exact, two_53}
use forwardlimit.Common.Text.{Text, codes}
use forwardlimit.Store.{Key, Bucket, bucket_valid}
use forwardlimit.Store.Capacity.{available}
use forwardlimit.Store.Redis.{base}
use forwardlimit.Store.Redis.Consume.{direct}
use forwardlimit.Store.Redis.Tokens.{BucketCommands, spend, take}

-- The milliseconds in which an empty bucket fills, rounded up.
abbrev filling : ℕ → ℕ → ℕ
filling rate burst = (burst * 1000 + rate) / suc rate

filling-le : (rate burst : ℕ) → filling rate burst ≤ burst * 1000
filling-le rate burst =
    let x = burst * 1000 in
    let short : (x + rate) / suc rate < suc x =
      (div-lt_iff_lt-mul {k = suc rate} (omega arith)).1 (grind arith) in
    omega arith

available_full : (rate burst c e : ℕ) → filling rate burst ≤ e → available rate burst c e ≡ burst
available_full rate burst c e h =
    let time = filling rate burst in
    let enough : burst * 1000 < time * suc rate + 1 =
      omega (arith, lt-div-mul-add {a = burst * 1000 + rate} {b = suc rate} (omega arith)) in
    let gained : burst * 1000 ≤ e * suc rate = omega (arith, mul-le-mul_right (suc rate) h) in
    let tokens : burst ≤ e * suc rate / 1000 =
      (le-div_iff_mul-le {k = 1000} (omega arith)).1 gained in
    ground arith

module _ {F W : Type 0} (float : Float F) (exact : Exact float) (redis : BucketCommands F W)
    (prefix : Text) (key : Key) (bucket : Bucket) (rate burst : ℕ)
    (valid : bucket_valid bucket ≡ true) (rate_is : bucket.rate ≡ pos (suc rate))
    (burst_is : bucket.burst ≡ pos burst) (hr : suc rate ≤ two_53)
    (hb : burst * 1000 + 10_000 ≤ two_53) where
  spend_life :
      (k : Text) (w : W)
      → (v : W) × ((spend float redis k (pos (suc rate)) (pos burst) w).1
          ≡ redis.pexpire k (float.of_int (pos (filling rate burst + 10_000))) v)
  unfolding spend
  spend_life k w =
      let small : filling rate burst + 10_000 ≤ two_53 = omega (arith, filling-le rate burst) in
      rw
        (
          spend,
          exact.mul_int burst 1000 (omega arith),
          exact.div_ceil (burst * 1000) rate (omega arith) hr,
          exact.add_int (filling rate burst) 10_000 small,
        )
        (_, refl)

  -- That a bucket expires changes no answer: the last thing that `Take` does is to have its key expire after a
  -- time in which the bucket fills, whatever it holds, so that once the key may be gone, a bucket that was kept
  -- would be full like a new one. The rate and the thousandfold of the burst are within the integers that a
  -- float64 holds.
  pub take-pexpire :
      (w : W) (c later : ℕ)
      → (life : ℕ) × ((v : W) × ((take float redis direct prefix key bucket w).1
            ≡ redis.pexpire (base prefix key ++ codes ":tb") (float.of_int (pos life)) v))
        × (available rate burst c (life + later) ≡ burst)
  unfolding take
  take-pexpire w c later = (
    filling rate burst + 10_000,
    rw (take, valid, rate_is, burst_is) (spend_life (base prefix key ++ codes ":tb") w),
    available_full rate burst c (filling rate burst + 10_000 + later) (omega arith),
  )
