-- ===== src/Store/Fake/Take.antt =====
-- `Take` of internal/store/storetest against the token bucket of Store/Capacity, and beside the `Take` of
-- internal/store/redisstore.
use forwardlimit.Common.{
  ℕ, suc, ◌+◌, ◌-◌, ◌*◌, ◌/◌, ◌≤◌, ◌<◌, ◌≡◌, ◌∙◌, refl, ap, Bool, true, false, none, some, List,
  leb, ltb, ◌⊎◌, inl, inr, Bool-cases, arith,
}
use forwardlimit.Common.Int.{ℤ, pos, ltb_ℤ, two_63}
use forwardlimit.Common.Float.{Float, Exact, two_53}
use forwardlimit.Common.Text.{Text, text_eq_refl}
use forwardlimit.Common.Assoc.{lookup, insert, lookup-insert}
use forwardlimit.Store.{
  Time, Key, key_string, Bucket, bucket_valid, TakeResult, Reply, ok, sub_time,
}
use forwardlimit.Store.Capacity.{available, step}
use forwardlimit.Store.Redis.Laws.{BucketLaws}
use forwardlimit.Store.Redis.Consume.{direct}
use forwardlimit.Store.Redis.Tokens.{BucketCommands}
use forwardlimit.Store.Redis.Grants.{Holds, Waits, take-step}
use forwardlimit.Store.Fake.{Fake, refill, take}
use forwardlimit.Store.Fake.Consume.{time_of}

whole_seconds : (n r : ℕ) → n * 1000 * r / 1000 ≡ n * r
whole_seconds n r = let moved : n * 1000 * r ≡ n * r * 1000 = grind arith in omega arith

found {ℓ} : {V : Type ℓ} (k : Text) (v : V) (m : List (Text × V)) → lookup k (insert k v m) ≡ some v
found k v m = lookup-insert k k v m ∙ rw (text_eq_refl k) refl

-- `n` seconds have passed since `t`, in which the numbers stay within those that a float64 holds.
pub record Later (rate burst : ℕ) (t : Time) (n : ℕ) (u : Time) : Type 0 where
  pub passed : sub_time u t ≡ pos (n * 1_000_000_000)
  pub short : n * 1_000_000_000 < two_63
  pub room : burst + n * suc rate ≤ two_53

module _ {F W : Type 0} (float : Float F) (exact : Exact float) (key : Key) (bucket : Bucket)
    (rate burst : ℕ) (rate_is : bucket.rate ≡ pos (suc rate)) (burst_is : bucket.burst ≡ pos burst)
    (hr : suc rate ≤ two_53) (hb : burst ≤ two_53) where
  -- The bucket has `c` tokens as of the time `t`, or is new and full.
  abbrev pub Has : ℕ → Time → Fake F W → Type 0
  Has c t f =
      (lookup (key_string key) f.buckets ≡ some (record { tokens = float.of_int (pos c); ts = t }))
      ⊎ ((lookup (key_string key) f.buckets ≡ none) × (c ≡ burst))

  refill-available :
      (c n : ℕ) (t u : Time) (f : Fake F W)
      → c ≤ burst
      → Has c t f
      → Later rate burst t n u
      → refill float (lookup (key_string key) f.buckets) bucket u
        ≡ float.of_int (pos (available rate burst c (n * 1000)))
  unfolding refill
  refill-available c n t u f hc (inl old) l = elim (Bool-cases (ltb 0 n)) [
    | inl some_time ↦
        let passes : ltb_ℤ (pos 0) (pos (n * 1_000_000_000)) ≡ true = ground arith in
        let gained : n * 1000 * suc rate / 1000 ≡ n * suc rate = whole_seconds n (suc rate) in
        rw
          (
            old,
            refill,
            l.passed,
            rate_is,
            burst_is,
            passes,
            exact.seconds_int n l.short,
            exact.mul_int n (suc rate) (omega (arith, l.room)),
            exact.add_int c (n * suc rate) (omega (arith, l.room)),
            exact.lt_int burst (c + n * suc rate) hb (omega (arith, l.room)),
            gained,
          )
          (ground arith)
    | inr no_time ↦
        let none_passed : n ≡ 0 = ground arith in
        let standing : ltb_ℤ (pos 0) (pos (n * 1_000_000_000)) ≡ false = ground arith in
        let same : available rate burst c 0 ≡ c = ground arith in
        let stays : available rate burst c (n * 1000) ≡ c =
          ap (λ m. available rate burst c (m * 1000)) none_passed ∙ same in
        rw (old, refill, l.passed, standing, stays) refl
  ]
  refill-available c n t u f hc (inr (fresh, full)) l =
      let filled : available rate burst c (n * 1000) ≡ burst = ground arith in
      rw (fresh, burst_is, filled, refill) refl

  -- Where no error is set, `Take` grants what the token bucket grants, and the bucket then has what remains, as
  -- of the time that the call reads. Whole seconds have passed since the last call, and all numbers are within
  -- the integers that a float64 holds.
  pub take-grant :
      (c n : ℕ) (t : Time) (f : Fake F W) (w : W)
      → f.error ≡ none
      → c ≤ burst
      → Has c t f
      → Later rate burst t n (time_of (f, w))
      → let g = step rate burst c (n * 1000) in
        let (r, s) = take float key bucket (f, w) in
        ((wait : ℤ) × (r
            ≡ ok (record { allowed = g.allowed; remaining = pos g.remaining; retry_after = wait })))
        × Has g.remaining (time_of (f, w)) s.0
  unfolding take
  take-grant c n t f w clean hc has l =
      let m = available rate burst c (n * 1000) in
      let bounded : m ≤ two_53 = ground arith in
      rw
        (
          clean,
          take,
          refill-available c n t (time_of (f, w)) f hc has l,
          exact.le_int 1 m (omega arith) bounded,
        )
        elim (Bool-cases (leb 1 m)) [
          | inl some_left ↦
              rw
                (
                  some_left,
                  exact.sub_int m 1 bounded (ground arith),
                  exact.truncate_int (m - 1) (omega arith),
                )
                ((pos 0, refl), inl (found (key_string key) _ f.buckets))
          | inr none_left ↦
              let empty : m ≡ 0 = ground arith in
              rw (empty) ((_, refl), inl (found (key_string key) _ f.buckets))
        ]

module _ {F W X : Type 0} (float : Float F) (exact : Exact float) (redis : BucketCommands F X)
    (laws : BucketLaws redis) (prefix : Text) (key : Key) (bucket : Bucket) (rate burst : ℕ)
    (valid : bucket_valid bucket ≡ true) (rate_is : bucket.rate ≡ pos (suc rate))
    (burst_is : bucket.burst ≡ pos burst) (hr : suc rate ≤ two_53) (hb : burst ≤ two_53) where
  -- The fake and Redis agree: on a bucket that has as many tokens in both, and after as many whole seconds,
  -- `Take` allows the call in both or in neither and says that as many tokens remain, and the bucket again has
  -- as many in both. The fake has no error set, Redis is reached, and all numbers are within the integers
  -- that a float64 holds.
  pub take-agrees :
      (c n t : ℕ) (u : Time) (f : Fake F W) (w : W) (x v : X)
      → f.error ≡ none
      → c ≤ burst
      → Has float exact key bucket rate burst rate_is burst_is hr hb c u f
      → Later rate burst u n (time_of (f, w))
      → Holds float exact redis laws prefix key bucket rate burst valid rate_is burst_is hr hb c t x
      → Waits float exact redis laws prefix key bucket rate burst valid rate_is burst_is hr hb x t
          (n * 1000)
          v
      → let (r, s) = take float key bucket (f, w) in
        let (q, y) = forwardlimit.Store.Redis.Tokens.take float redis direct prefix key bucket v in
        (b : Bool) × (left : ℕ) × (faked real : ℤ) × (r
          ≡ ok (record { allowed = b; remaining = pos left; retry_after = faked }))
        × (q ≡ ok (record { allowed = b; remaining = pos left; retry_after = real }))
        × Has float exact key bucket rate burst rate_is burst_is hr hb left (time_of (f, w)) s.0
        × Holds float exact redis laws prefix key bucket rate burst valid rate_is burst_is hr hb
            left
            (t + n * 1000)
            y
  take-agrees c n t u f w x v clean hc has later held waits =
      let ((faked, said), kept) =
        take-grant float exact key bucket rate burst rate_is burst_is hr hb c n u f w clean hc has
          later in
      let (told, left) =
        take-step float exact redis laws prefix key bucket rate burst valid rate_is burst_is hr hb c
          t (n * 1000) x v hc held waits in
      let g = step rate burst c (n * 1000) in
      (g.allowed, g.remaining, faked, pos (g.wait * 1_000_000), said, told, kept, left)
