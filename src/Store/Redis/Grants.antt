-- ===== src/Store/Redis/Grants.antt =====
-- Calls of `Take` of internal/store/redisstore while time passes, against the token bucket of Store/Capacity.
use forwardlimit.Common.{
  ℕ, suc, ◌+◌, ◌*◌, ◌≤◌, ◌≡◌, ◌∙◌, refl, sym, ap, subst, Bool, true, false, ◌&&◌, List, [], ◌∷◌,
  ◌++◌, map, if◌then◌else◌, arith,
}
use native.Mathlib.Nat.{mul-le-mul_right}
use forwardlimit.Common.Int.{ℤ, pos, ◌≤ℤ◌, leb_ℤ, wrap-pos}
use forwardlimit.Common.Float.{Float, Exact, two_53}
use forwardlimit.Common.Text.{Text, codes}
use forwardlimit.Store.{Key, Bucket, bucket_valid, TakeResult, Reply, ok, err, panicked}
use forwardlimit.Store.Capacity.{step}
use forwardlimit.Store.Capacity.Rate.{
  answers, count, sum, count-answers, step_due, wait_bounds, wait_long,
}
use forwardlimit.Store.Redis.{base}
use forwardlimit.Store.Redis.Laws.{BucketLaws}
use forwardlimit.Store.Redis.Consume.{direct, is_one}
use forwardlimit.Store.Redis.Tokens.{BucketCommands, spend, take, of_millis}
use forwardlimit.Store.Redis.Refill.{Has, Later, spend-step, clock-spend}

abbrev pub is_allowed : Reply TakeResult → Bool
is_allowed (ok r) = r.allowed
is_allowed (err e) = false
is_allowed panicked = false

abbrev retry_of : Reply TakeResult → ℤ
retry_of (ok r) = r.retry_after
retry_of (err e) = pos 0
retry_of panicked = pos 0

of_millis-pos : (n : ℕ) → n ≤ 1000 → of_millis (pos n) ≡ pos (n * 1_000_000)
unfolding of_millis
of_millis-pos n h = wrap-pos (n * 1_000_000) (omega arith)

module _ {F W : Type 0} (float : Float F) (exact : Exact float) (redis : BucketCommands F W)
    (laws : BucketLaws redis) (prefix : Text) (key : Key) (bucket : Bucket) (rate burst : ℕ)
    (valid : bucket_valid bucket ≡ true) (rate_is : bucket.rate ≡ pos (suc rate))
    (burst_is : bucket.burst ≡ pos burst) (hr : suc rate ≤ two_53) (hb : burst ≤ two_53) where
  -- The key of the bucket.
  abbrev pub bucket_key : Text
  bucket_key = base prefix key ++ codes ":tb"

  -- The bucket has `c` tokens, as of `t`.
  abbrev pub Holds : ℕ → ℕ → W → Type 0
  Holds = Has float exact redis laws rate burst hr hb bucket_key

  abbrev pub Waits : W → ℕ → ℕ → W → Type 0
  Waits = Later float exact redis laws rate burst hr hb bucket_key

  abbrev taking : W → Reply TakeResult × W
  taking = take float redis direct prefix key bucket

  take-spend :
      (a n t : ℤ) (w : W)
      → (spend float redis bucket_key (pos (suc rate)) (pos burst) w).0 ≡ a ∷ n ∷ t ∷ []
      → taking w ≡ (
        ok (record {
          allowed = leb_ℤ a (pos 1) && leb_ℤ (pos 1) a;
          remaining = n;
          retry_after = of_millis t;
        }),
        (spend float redis bucket_key (pos (suc rate)) (pos burst) w).1,
      )
  unfolding take
  take-spend a n t w e = rw (valid, rate_is, burst_is, e, take) refl

  pub clock-take : (w : W) → laws.clock (taking w).1 ≡ laws.clock w
  unfolding take
  clock-take w =
      rw (take, valid, rate_is, burst_is)
        (clock-spend float exact redis laws rate burst hr hb bucket_key w)

  -- `Take` grants what the token bucket grants, tells the tokens that remain, and, if there is none, how long
  -- it takes until the next; and the key then says what remains. The bucket gains whole tokens in the time
  -- since the last call, and the rate, the burst and the clock are within the integers that a float64 holds.
  pub take-step :
      (c t e : ℕ) (w v : W)
      → c ≤ burst
      → Holds c t w
      → Waits w t e v
      → let g = step rate burst c e in
        let (r, v') = take float redis direct prefix key bucket v in
        (r
          ≡ ok (record {
            allowed = g.allowed;
            remaining = pos g.remaining;
            retry_after = pos (g.wait * 1_000_000);
          }))
        × Holds g.remaining (t + e) v'
  take-step c t e w v hc has l =
      let g = step rate burst c e in
      let (said, kept) =
        spend-step float exact redis laws rate burst hr hb bucket_key c t e w v hc has l in
      rw
        (
          take-spend (if g.allowed then pos 1 else pos 0) (pos g.remaining) (pos g.wait) v said,
          is_one g.allowed,
          of_millis-pos g.wait (wait_bounds rate burst c e),
        )
        (refl, kept)

  -- The calls are made in the worlds of the list, each so many milliseconds after the one before.
  abbrev pub Follows : W → ℕ → List (ℕ × W) → Type 0
  Follows w t [] = Unit {0}
  Follows w t ((e, v) ∷ later) = Waits w t e v × Follows (taking v).1 (t + e) later

  -- Which of them are allowed.
  abbrev pub outcomes : List (ℕ × W) → List Bool
  outcomes = map (λ (c : ℕ × W). is_allowed (taking c.1).0)

  abbrev pub gaps : List (ℕ × W) → List ℕ
  gaps = map (λ (c : ℕ × W). c.0)

  outcomes-answers :
      (c t : ℕ) (w : W) (calls : List (ℕ × W))
      → c ≤ burst
      → Holds c t w
      → Follows w t calls
      → outcomes calls ≡ answers rate burst c (gaps calls)
  outcomes-answers c t w [] hc has follows = refl
  outcomes-answers c t w ((e, v) ∷ later) hc has (l, rest) =
      let g = step rate burst c e in
      let (said, kept) = take-step c t e w v hc has l in
      let left : g.remaining ≤ burst = ground arith in
      rw said (
        ap (λ bs. g.allowed ∷ bs)
          (outcomes-answers g.remaining (t + e) (taking v).1 later left kept rest))

  -- The rate is never exceeded: of the calls for a bucket of `c` tokens, whenever they come and whatever else
  -- is done between them, no more are allowed than `c` and what the rate adds from the first moment to the
  -- last call. The key is left alone in between, the bucket gains whole tokens in the time between two calls,
  -- and all numbers are within the integers that a float64 holds.
  pub count-outcomes :
      (c t : ℕ) (w : W) (calls : List (ℕ × W))
      → c ≤ burst
      → Holds c t w
      → Follows w t calls
      → count (outcomes calls) * 1000 ≤ c * 1000 + sum (gaps calls) * suc rate
  count-outcomes c t w calls hc has follows =
      rw (outcomes-answers c t w calls hc has follows) (count-answers rate burst c (gaps calls))

  -- Nobody waits in vain: a call that comes at least as late after a rejected one as it was told to is allowed,
  -- as long as the key is left alone in between, so that nobody else takes the token. The burst is at least
  -- one; the bucket gains whole tokens in the time before the rejected call and in the wait, that is, the
  -- milliseconds times the rate are a multiple of 1000; and all numbers are within the integers that a
  -- float64 holds. A wait after which a fraction of a token is gained too is not covered.
  pub take_served :
      (c t e e' : ℕ) (w v u : W)
      → 1 ≤ burst
      → c ≤ burst
      → Holds c t w
      → Waits w t e v
      → (r : TakeResult) → (take float redis direct prefix key bucket v).0 ≡ ok r
      → r.allowed ≡ false
      → Waits (take float redis direct prefix key bucket v).1 (t + e) e' u
      → r.retry_after ≤ℤ pos (e' * 1_000_000)
      → is_allowed (take float redis direct prefix key bucket u).0 ≡ true
  take_served c t e e' w v u h1 hc has l r is_r denied l' waited =
      let g = step rate burst c e in
      let (said, kept) = take-step c t e w v hc has l in
      let left : g.remaining ≤ burst = ground arith in
      let same = sym is_r ∙ said in
      let rejects : g.allowed ≡ false = sym (ap is_allowed same) ∙ denied in
      let told : pos (g.wait * 1_000_000) ≤ℤ pos (e' * 1_000_000) =
        subst (λ q. q ≤ℤ pos (e' * 1_000_000)) (ap retry_of same) waited in
      let enough : g.wait ≤ e' = omega arith in
      let due : 1000 ≤ e' * suc rate =
        omega (arith, wait_long rate burst c e rejects, mul-le-mul_right (suc rate) enough) in
      let (said', kept') = take-step g.remaining (t + e) e' (taking v).1 u left kept l' in
      rw said' (step_due rate burst g.remaining e' h1 due)
