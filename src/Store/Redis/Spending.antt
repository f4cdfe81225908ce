-- ===== src/Store/Redis/Spending.antt =====
-- A run of calls of `Take` of internal/store/redisstore, while the server's clock stands still.
use forwardlimit.Common.{
  ℕ, zero, suc, ◌+◌, ◌-◌, ◌*◌, ◌/◌, ◌≤◌, ◌≡◌, ◌∙◌, refl, ap, subst, true, none, leb, ltb, inr,
  arith,
}
use forwardlimit.Common.Int.{ℤ, pos}
use forwardlimit.Common.Float.{Float, Exact, two_53}
use forwardlimit.Common.Text.{Text}
use forwardlimit.Store.{Key, Bucket, bucket_valid, ok}
use forwardlimit.Store.Capacity.{available, step}
use forwardlimit.Store.Redis.Laws.{BucketLaws}
use forwardlimit.Store.Redis.Consume.{direct}
use forwardlimit.Store.Redis.Tokens.{BucketCommands, take}
use forwardlimit.Store.Redis.Grants.{bucket_key, Holds, Waits, take-step, clock-take}

module _ {F W : Type 0} (float : Float F) (exact : Exact float) (redis : BucketCommands F W)
    (laws : BucketLaws redis) (s us : ℕ) (small : s * 1000 + us ≤ two_53) (prefix : Text)
    (key : Key) (bucket : Bucket) (rate burst : ℕ) (valid : bucket_valid bucket ≡ true)
    (rate_is : bucket.rate ≡ pos (suc rate)) (burst_is : bucket.burst ≡ pos burst)
    (hr : suc rate ≤ two_53) (hb : burst ≤ two_53) where
  -- The world after `n` calls, one after the other.
  abbrev pub takes : ℕ → W → W
  takes zero w = w
  takes (suc n) w = (take float redis direct prefix key bucket (takes n w)).1

  abbrev now : ℕ
  now = s * 1000 + us / 1000

  abbrev Left : ℕ → W → Type 0
  Left c w =
      Holds float exact redis laws prefix key bucket rate burst valid rate_is burst_is hr hb c now w

  at_once :
      (c : ℕ) (w : W)
      → laws.clock w ≡ (pos s, pos us)
      → Waits float exact redis laws prefix key bucket rate burst valid rate_is burst_is hr hb w now
          0 w
  at_once c w clock = record {
    kept = refl;
    reads = record { s = s; us = us; clock_is = clock; millis = omega arith; small = small };
    gain = 0;
    whole = omega arith;
    fits = omega arith;
    room = omega arith;
  }

  take_now :
      (c : ℕ) (w : W)
      → c ≤ burst
      → laws.clock w ≡ (pos s, pos us)
      → Left c w
      → let (r, w') = take float redis direct prefix key bucket w in
        ((t : ℤ) × (r
            ≡ ok (record { allowed = leb 1 c; remaining = pos (c - 1); retry_after = t })))
        × (laws.clock w' ≡ (pos s, pos us))
        × Left (c - 1) w'
  take_now c w hc clock has =
      let g = step rate burst c 0 in
      let (said, kept) =
        take-step float exact redis laws prefix key bucket rate burst valid rate_is burst_is hr hb c
          now 0 w w hc has (at_once c w clock) in
      let w' = (take float redis direct prefix key bucket w).1 in
      let same : available rate burst c 0 ≡ c = ground arith in
      let stands : now + 0 ≡ now = omega arith in
      (
        (
          pos (g.wait * 1_000_000),
          said
              ∙ ap
                  (λ n. ok (record {
                    allowed = leb 1 n;
                    remaining = pos (n - 1);
                    retry_after = pos (g.wait * 1_000_000);
                  }))
                  same,
        ),
        clock-take float exact redis laws prefix key bucket rate burst valid rate_is burst_is hr hb
              w
            ∙ clock,
        subst (λ n. Left (n - 1) w') same
            (subst
              (λ t.
                Holds float exact redis laws prefix key bucket rate burst valid rate_is burst_is hr
                  hb g.remaining t w')
              stands kept),
      )

  takes-Left :
      (n : ℕ) (w : W)
      → laws.clock w ≡ (pos s, pos us)
      → Left burst w
      → (laws.clock (takes n w) ≡ (pos s, pos us)) × Left (burst - n) (takes n w)
  takes-Left zero w clock full =
      let none_spent : burst ≡ burst - 0 = omega arith in
      (clock, subst (λ c. Left c w) none_spent full)
  takes-Left (suc n) w clock full =
      let (stands, has) = takes-Left n w clock full in
      let (said, stands', has') = take_now (burst - n) (takes n w) (omega arith) stands has in
      let less : burst - n - 1 ≡ burst - suc n = omega arith in
      (stands', subst (λ c. Left c (takes (suc n) w)) less has')

  -- From a new bucket, and while the server's clock stands still, exactly the first `burst` calls are let
  -- through: after `n` calls, the next is allowed if and only if `n` is less than the burst. The rate, the
  -- burst and the clock in milliseconds are within the integers that a float64 holds.
  take-admits :
      (n : ℕ) (w : W)
      → laws.clock w ≡ (pos s, pos us)
      → laws.held
          (bucket_key float exact redis laws prefix key bucket rate burst valid rate_is burst_is hr
            hb)
          w
        ≡ (none, none)
      → (remaining wait : ℤ) × ((take float redis direct prefix key bucket (takes n w)).0
          ≡ ok (record { allowed = ltb n burst; remaining = remaining; retry_after = wait }))
  take-admits n w clock fresh =
      let (stands, has) = takes-Left n w clock (inr (fresh, refl)) in
      let ((t, said), stands', has') = take_now (burst - n) (takes n w) (omega arith) stands has in
      let same : leb 1 (burst - n) ≡ ltb n burst = ground arith in
      (
        pos (burst - n - 1),
        t,
        said
            ∙ ap
                (λ b. ok (record { allowed = b; remaining = pos (burst - n - 1); retry_after = t }))
                same,
      )
