-- ===== src/Store/Redis/Refill.antt =====
-- The script that `Take` of internal/store/redisstore runs, against the token bucket of Store/Capacity.
use forwardlimit.Common.{
  ℕ, suc, ◌+◌, ◌-◌, ◌*◌, ◌/◌, ◌≤◌, ◌≡◌, ◌∙◌, refl, ap, false, none, some, [], ◌∷◌, if◌then◌else◌,
  leb, ltb, ◌⊎◌, inl, inr, Bool-cases, arith,
}
use forwardlimit.Common.Int.{pos}
use forwardlimit.Common.Float.{Float, Exact, two_53}
use forwardlimit.Common.Text.{Text, codes}
use forwardlimit.Store.Capacity.{available, step}
use forwardlimit.Store.Capacity.Rate.{wait_bounds}
use forwardlimit.Store.Redis.Laws.{BucketLaws}
use forwardlimit.Store.Redis.Tokens.{BucketCommands, stored, clock_now, refilled, spend}

module _ {F W : Type 0} (float : Float F) (exact : Exact float) (redis : BucketCommands F W)
    (laws : BucketLaws redis) where
  -- The clock of the server reads `t` milliseconds.
  pub record Reads (w : W) (t : ℕ) : Type 0 where
    pub s : ℕ
    pub us : ℕ
    pub clock_is : laws.clock w ≡ (pos s, pos us)
    pub millis : s * 1000 + us / 1000 ≡ t
    pub small : s * 1000 + us ≤ two_53

  clock_now-Reads :
      (w : W) (t : ℕ) → Reads w t → clock_now float (laws.clock w) ≡ float.of_int (pos t)
  unfolding clock_now
  clock_now-Reads w t r =
      let fits : r.s * 1000 + r.us / 1000 ≤ two_53 = ground (arith, r.small) in
      rw
        (
          r.clock_is,
          clock_now,
          exact.mul_int r.s 1000 (omega (arith, r.small)),
          exact.div_floor r.us 999 (omega (arith, r.small)) (omega arith),
          exact.add_int (r.s * 1000) (r.us / 1000) fits,
          r.millis,
        )
        refl

  -- Time for `g` tokens passes.
  refilled-available :
      (rate burst c t e g now : ℕ)
      → now ≡ t + e
      → burst ≤ two_53
      → c + g ≤ two_53
      → now ≤ two_53
      → e * suc rate ≤ two_53
      → e * suc rate ≡ g * 1000
      → refilled float
          (float.of_int (pos (suc rate)))
          (float.of_int (pos burst))
          (float.of_int (pos now))
          (float.of_int (pos c), float.of_int (pos t))
        ≡ float.of_int (pos (available rate burst c e))
  unfolding refilled
  refilled-available rate burst c t e g now now_is hb hc ht he whole =
      let passed : now - t ≡ e = omega arith in
      let gained : float.div (float.of_int (pos (e * suc rate))) (float.of_int (pos 1000))
          ≡ float.of_int (pos g) =
        ap (λ n. float.div (float.of_int (pos n)) (float.of_int (pos 1000))) whole
        ∙ exact.div_whole g 999 (omega arith) in
      let tokens : e * suc rate / 1000 ≡ g = omega arith in
      let forward : ltb e 0 ≡ false = ground arith in
      rw
        (
          refilled,
          exact.sub_int now t ht (omega arith),
          passed,
          exact.lt_int e 0 (omega arith) (omega arith),
          forward,
          exact.mul_int e (suc rate) he,
          gained,
          exact.add_int c g hc,
          exact.lt_int (c + g) burst hc hb,
          tokens,
        )
        (ground arith)

  module _ (rate burst : ℕ) (hr : suc rate ≤ two_53) (hb : burst ≤ two_53) (k : Text) where
    -- The key says that `c` tokens were left at `t`, or it is missing and the bucket is full.
    abbrev pub Has : ℕ → ℕ → W → Type 0
    Has c t w =
        (laws.held k w ≡ (some (float.of_int (pos c)), some (float.of_int (pos t))))
        ⊎ ((laws.held k w ≡ (none, none)) × (c ≡ burst))

    -- In `v` the key is as in `w`, where the clock read `t`, and it is `e` milliseconds later: time in which
    -- the bucket gains whole tokens, on a clock that a float64 holds.
    pub record Later (w : W) (t e : ℕ) (v : W) : Type 0 where
      pub kept : laws.held k v ≡ laws.held k w
      pub reads : Reads v (t + e)
      pub gain : ℕ
      pub whole : e * suc rate ≡ gain * 1000
      pub fits : e * suc rate ≤ two_53
      pub room : burst + gain ≤ two_53

    stored-refilled :
        (c t e : ℕ) (w v : W)
        → c ≤ burst
        → Has c t w
        → Later w t e v
        → refilled float
            (float.of_int (pos (suc rate)))
            (float.of_int (pos burst))
            (float.of_int (pos (t + e)))
            (stored (float.of_int (pos burst)) (float.of_int (pos (t + e))) (laws.held k v))
          ≡ float.of_int (pos (available rate burst c e))
    stored-refilled c t e w v hc (inl old) l =
        rw (l.kept, old)
          (refilled-available rate burst c t e l.gain (t + e) refl hb (omega arith) (ground arith)
            l.fits l.whole)
    stored-refilled c t e w v hc (inr (fresh, full)) l =
        let filled : available rate burst burst 0 ≡ available rate burst c e = ground arith in
        rw (l.kept, fresh)
          (refilled-available rate burst burst (t + e) 0 0 (t + e) (omega arith) hb (omega arith)
              (ground arith) (omega arith) (omega arith)
            ∙ ap (λ n. float.of_int (pos n)) filled)

    -- The world that the script leaves.
    abbrev written : F → F → F → W → W
    written n t ms w = redis.pexpire k ms (
        redis.hset k (codes "n") n (codes "t") t
          (redis.hmget k (codes "n") (codes "t") (redis.time w).1).1)

    held-written : (n t ms : F) (w : W) → laws.held k (written n t ms w) ≡ (some n, some t)
    held-written n t ms w = laws.pexpire_held k k ms _ ∙ laws.hset_held k n t _

    pub clock-spend :
        (w : W) → laws.clock (spend float redis k (pos (suc rate)) (pos burst) w).1 ≡ laws.clock w
    unfolding spend
    clock-spend w =
        laws.pexpire_clock k _ _
        ∙ laws.hset_clock k _ _ _
        ∙ laws.hmget_clock k _
        ∙ laws.time_clock w

    -- The script on a bucket of `c` tokens, `e` milliseconds later.
    pub spend-step :
        (c t e : ℕ) (w v : W)
        → c ≤ burst
        → Has c t w
        → Later w t e v
        → let g = step rate burst c e in
          let (r, v') = spend float redis k (pos (suc rate)) (pos burst) v in
          (r ≡ (if g.allowed then pos 1 else pos 0) ∷ pos g.remaining ∷ pos g.wait ∷ [])
          × Has g.remaining (t + e) v'
    unfolding spend
    spend-step c t e w v hc has l =
        let asked : (redis.time v).0 ≡ laws.clock v = laws.time_reply v in
        let fields : (redis.hmget k (codes "n") (codes "t") (redis.time v).1).0 ≡ laws.held k v =
          laws.hmget_reply k (redis.time v).1 ∙ laws.time_held k v in
        let n = available rate burst c e in
        let bounded : n ≤ two_53 = ground arith in
        rw
          (
            spend,
            asked,
            clock_now-Reads v (t + e) l.reads,
            fields,
            stored-refilled c t e w v hc has l,
            exact.le_int 1 n (omega arith) bounded,
          )
          elim (Bool-cases (leb 1 n)) [
            | inl some_left ↦
                rw
                  (
                    some_left,
                    exact.sub_int n 1 bounded (ground arith),
                    exact.floor_int (n - 1) (omega arith),
                    exact.truncate_int (n - 1) (omega arith),
                    exact.truncate_int 0 (omega arith),
                    held-written,
                  )
                  (refl, inl refl)
            | inr none_left ↦
                let empty : n ≡ 0 = ground arith in
                let short : (1000 + rate) / suc rate ≤ 1000 =
                  ground (arith, wait_bounds rate burst c e) in
                rw
                  (
                    empty,
                    exact.sub_int 1 0 (omega arith) (omega arith),
                    exact.mul_int 1 1000 (omega arith),
                    exact.div_ceil 1000 rate (omega arith) hr,
                    exact.floor_int 0 (omega arith),
                    exact.truncate_int 0 (omega arith),
                    exact.truncate_int ((1000 + rate) / suc rate) (omega arith),
                    held-written,
                  )
                  (refl, inl refl)
          ]
