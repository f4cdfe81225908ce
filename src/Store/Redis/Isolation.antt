-- ===== src/Store/Redis/Isolation.antt =====
-- Calls of `Consume` of internal/store/redisstore for many buckets.
use forwardlimit.Common.{
  ℕ, suc, ◌-◌, ◌≡◌, ◌∙◌, ◌&&◌, Bool-ext, refl, ap, Bool, true, false, List, [], ◌∷◌, ◌++◌, All,
  if◌then◌else◌, inl, inr, Bool-cases, arith,
}
use forwardlimit.Common.Int.{ℤ, pos, ◌<ℤ◌, two_63}
use forwardlimit.Common.Text.{Lacks, Text, codes, text_eq, text_eq→eq, eq→text_eq}
use forwardlimit.Common.Assoc.{or_zero}
use forwardlimit.Store.{sanitize_bucket, Key, Rule, rule_valid, ok}
use forwardlimit.Store.Window.{Phase, step}
use forwardlimit.Store.Redis.{Commands, decide, consume, base, base-injective, seconds, of_seconds}
use forwardlimit.Store.Redis.Laws.{Laws}
use forwardlimit.Store.Redis.Refines.{wait}
use forwardlimit.Store.Redis.Consume.{
  direct, seconds_pos, counter_key, marker_key, phase_of, IsTidyFor, consume-step,
}

module _ {W : Type 0} (redis : Commands W) (laws : Laws redis) where
  decide-other :
      (counter marker j : Text) (limit : ℤ) (m n : ℕ) (w : W)
      → or_zero (laws.value counter w) <ℤ pos (two_63 - 1)
      → text_eq j counter ≡ false
      → text_eq j marker ≡ false
      → let v = (decide redis counter marker limit (pos (suc m)) (pos (suc n)) w).1 in
        (laws.value j v ≡ laws.value j w) × (laws.left j v ≡ laws.left j w)
  unfolding decide
  decide-other counter marker j limit m n w fits other_c other_m =
      let asked = (redis.ttl marker w).1 in
      let fits' : or_zero (laws.value counter asked) <ℤ pos (two_63 - 1) =
        rw (laws.ttl_value counter marker w) fits in
      let counted = (redis.incr counter asked).1 in
      let timed = redis.expire counter (pos (suc m)) counted in
      let late = redis.set_ex marker (codes "1") (pos (suc n)) timed in
      let soon = redis.set_ex marker (codes "1") (pos (suc n)) counted in
      (
        ground (
          arith,
          laws.ttl_value j marker w,
          laws.incr_value j counter asked fits',
          laws.expire_value j counter m counted,
          laws.set_value j marker (codes "1") n timed other_m,
          laws.set_value j marker (codes "1") n counted other_m,
          laws.del_value j counter late,
          laws.del_value j counter soon,
        ),
        ground (
          arith,
          laws.ttl_left j marker w,
          laws.incr_left j counter asked fits',
          laws.expire_left j counter m counted,
          laws.set_left j marker (codes "1") n timed,
          laws.set_left j marker (codes "1") n counted,
          laws.del_left j counter late,
          laws.del_left j counter soon,
        ),
      )

-- A key of a bucket ends with a colon and a letter.
ending : (s t : Text) (c d : ℕ) → s ++ (b':' ∷ c ∷ []) ≡ t ++ (b':' ∷ d ∷ []) → s ≡ t
ending [] [] c d e = refl
ending [] (x ∷ []) c d e = absurd (ground arith)
ending [] (x ∷ y ∷ []) c d e = absurd (ground arith)
ending [] (x ∷ y ∷ z ∷ t) c d e = absurd (ground arith)
ending (x ∷ []) [] c d e = absurd (ground arith)
ending (x ∷ y ∷ []) [] c d e = absurd (ground arith)
ending (x ∷ y ∷ z ∷ s) [] c d e = absurd (ground arith)
ending (x ∷ s) (y ∷ t) c d e = let rest = ending s t c d (ground arith) in ground arith

apart :
    (s t : Text) (c d : ℕ)
    → text_eq s t ≡ false
    → text_eq (s ++ (b':' ∷ c ∷ [])) (t ++ (b':' ∷ d ∷ [])) ≡ false
apart s t c d differ = elim (Bool-cases (text_eq (s ++ (b':' ∷ c ∷ [])) (t ++ (b':' ∷ d ∷ [])))) [
  | inr n ↦ n
  | inl y ↦ absurd (ground (arith, eq→text_eq s t (ending s t c d (text_eq→eq _ _ y))))
]

module _ {W : Type 0} (redis : Commands W) (laws : Laws redis) (prefix : Text) where
  -- The two buckets have the same keys in Redis.
  abbrev pub is_same : Key → Key → Bool
  is_same j k = text_eq (base prefix j) (base prefix k)

  consume-other :
      (j k : Key) (rule : Rule) (w : W) (x : Text)
      → rule_valid rule ≡ true
      → IsTidyFor redis laws prefix k w
      → text_eq x (counter_key redis laws prefix k) ≡ false
      → text_eq x (marker_key redis laws prefix k) ≡ false
      → let v = (consume redis direct prefix k rule w).1 in
        (laws.value x v ≡ laws.value x w) × (laws.left x v ≡ laws.left x w)
  unfolding consume
  consume-other j k rule w x valid tidy c m =
      let (a, window) = seconds_pos rule.window in
      let (b, block) = seconds_pos rule.block in
      rw (valid, window, block, consume)
        (decide-other redis laws (counter_key redis laws prefix k) (marker_key redis laws prefix k)
          x rule.limit a b w tidy.fits c m)

  -- A call leaves the other buckets as they are.
  pub consume-apart :
      (j k : Key) (rule : Rule) (w : W)
      → rule_valid rule ≡ true
      → is_same j k ≡ false
      → IsTidyFor redis laws prefix k w
      → IsTidyFor redis laws prefix j w
      → let v = (consume redis direct prefix k rule w).1 in
        (phase_of redis laws prefix j v ≡ phase_of redis laws prefix j w)
        × IsTidyFor redis laws prefix j v
  consume-apart j k rule w valid differ tidy_k tidy_j =
      let (value_c, left_c) =
        consume-other j k rule w (counter_key redis laws prefix j) valid tidy_k
          (apart _ _ b'c' b'c' differ) (apart _ _ b'c' b'b' differ) in
      let (value_m, left_m) =
        consume-other j k rule w (marker_key redis laws prefix j) valid tidy_k
          (apart _ _ b'b' b'c' differ) (apart _ _ b'b' b'b' differ) in
      (
        rw (value_c, left_m) refl,
        record { timed = rw (value_c, left_c) tidy_j.timed; fits = rw value_c tidy_j.fits },
      )

  -- In a bucket with the same keys it moves the phase as it does in its own.
  pub consume-same :
      (j k : Key) (rule : Rule) (w : W)
      → rule_valid rule ≡ true
      → rule.limit <ℤ pos (two_63 - 1)
      → is_same j k ≡ true
      → IsTidyFor redis laws prefix k w
      → let v = (consume redis direct prefix k rule w).1 in
        (phase_of redis laws prefix j v ≡ (step rule.limit (phase_of redis laws prefix j w)).next)
        × IsTidyFor redis laws prefix j v
  consume-same j k rule w valid below same tidy =
      let one = text_eq→eq (base prefix j) (base prefix k) same in
      let (said, moved, kept) = consume-step redis laws prefix k rule w valid below tidy in
      rw one (moved, kept)

  -- Buckets of one limiter that are the same but for braces.
  abbrev pub is_own : Key → Key → Bool
  is_own j k =
      text_eq j.limiter k.limiter && text_eq (sanitize_bucket j.bucket) (sanitize_bucket k.bucket)

  is_own→base : (j k : Key) → is_own j k ≡ true → base prefix j ≡ base prefix k
  unfolding base
  is_own→base j k h =
      let limiter = text_eq→eq j.limiter k.limiter (ground arith) in
      let bucket =
        text_eq→eq (sanitize_bucket j.bucket) (sanitize_bucket k.bucket) (ground arith) in
      rw (limiter, bucket) refl

  is_same-is_own :
      (j k : Key) → Lacks b':' j.limiter → Lacks b':' k.limiter → is_same j k ≡ is_own j k
  is_same-is_own j k hj hk =
      Bool-ext (is_same j k) (is_own j k)
        (λ e.
          let (limiter, bucket) = base-injective prefix j k hj hk (text_eq→eq _ _ e) in
          rw (eq→text_eq _ _ limiter, eq→text_eq _ _ bucket) refl)
        (λ e. eq→text_eq _ _ (is_own→base j k e))

  abbrev pub Sane : Key × Rule → Type 0
  Sane (k, rule) =
      (rule_valid rule ≡ true) × (rule.limit <ℤ pos (two_63 - 1)) × Lacks b':' k.limiter

  abbrev pub AreTidy : W → Type 0
  AreTidy w = (k : Key) → IsTidyFor redis laws prefix k w

  -- Calls for any buckets, one after the other.
  abbrev pub run : List (Key × Rule) → W → W
  run [] w = w
  run ((k, rule) ∷ calls) w = run calls (consume redis direct prefix k rule w).1

  -- What a bucket's own calls make of its phase.
  abbrev pub own : Key → List (Key × Rule) → Phase → Phase
  own j [] p = p
  own j ((k, rule) ∷ calls) p = own j calls (if is_own j k then (step rule.limit p).next else p)

  consume-own :
      (k : Key) (rule : Rule) (w : W)
      → Sane (k, rule)
      → AreTidy w
      → (j : Key) → Lacks b':' j.limiter
      → let v = (consume redis direct prefix k rule w).1 in
        (phase_of redis laws prefix j v ≡ (
          if is_own j k
          then (step rule.limit (phase_of redis laws prefix j w)).next
          else phase_of redis laws prefix j w))
        × IsTidyFor redis laws prefix j v
  consume-own k rule w (valid, below, named) tidy j lacks =
      let one = is_same-is_own j k lacks named in
      elim (Bool-cases (is_own j k)) [
        | inl y ↦ rw y (consume-same j k rule w valid below (one ∙ y) (tidy k))
        | inr n ↦ rw n (consume-apart j k rule w valid (one ∙ n) (tidy k) (tidy j))
      ]

  consume-AreTidy :
      (k : Key) (rule : Rule) (w : W)
      → Sane (k, rule)
      → AreTidy w
      → AreTidy (consume redis direct prefix k rule w).1
  consume-AreTidy k rule w (valid, below, named) tidy j = elim (Bool-cases (is_same j k)) [
    | inl y ↦ (consume-same j k rule w valid below y (tidy k)).1
    | inr n ↦ (consume-apart j k rule w valid n (tidy k) (tidy j)).1
  ]

  phase_of-run :
      (j : Key) (calls : List (Key × Rule)) (w : W)
      → Lacks b':' j.limiter
      → All Sane calls
      → AreTidy w
      → (phase_of redis laws prefix j (run calls w) ≡ own j calls (phase_of redis laws prefix j w))
        × AreTidy (run calls w)
  phase_of-run j [] w lacks sane tidy = (refl, tidy)
  phase_of-run j ((k, rule) ∷ calls) w lacks (s, sane) tidy =
      let v = (consume redis direct prefix k rule w).1 in
      let (rest, kept) = phase_of-run j calls v lacks sane (consume-AreTidy k rule w s tidy) in
      (rest ∙ ap (own j calls) (consume-own k rule w s tidy j lacks).0, kept)

  -- Clients do not disturb each other: after calls for any buckets of any limiters, the answer to a call is the
  -- one that the specification gives after the calls for its own bucket alone. These are the calls of the
  -- same limiter for the same client, braces in its name aside. The time to wait is what the block has left
  -- by then, or the rule's block, in whole seconds. The rules are valid, their limits below the largest
  -- int64, the limiters' names hold no colon, every counter has an expiry and has not reached the largest
  -- int64, and no key expires meanwhile.
  pub consume-run :
      (j : Key) (rule : Rule) (calls : List (Key × Rule)) (w : W)
      → Sane (j, rule)
      → All Sane calls
      → AreTidy w
      → let p = own j calls (phase_of redis laws prefix j w) in
        let v = step rule.limit p in
        let left = laws.left (marker_key redis laws prefix j) (run calls w) in
        (consume redis direct prefix j rule (run calls w)).0
        ≡ ok (record {
          blocked = v.rejected;
          count = v.count;
          retry_after = of_seconds (wait left (seconds rule.block) p v);
        })
  consume-run j rule calls w (valid, below, lacks) sane tidy =
      let (moved, kept) = phase_of-run j calls w lacks sane tidy in
      let (said, next, still) =
        consume-step redis laws prefix j rule (run calls w) valid below (kept j) in
      let left = laws.left (marker_key redis laws prefix j) (run calls w) in
      said
      ∙ ap
          (λ p. ok (record {
            blocked = (step rule.limit p).rejected;
            count = (step rule.limit p).count;
            retry_after = of_seconds (wait left (seconds rule.block) p (step rule.limit p));
          }))
          moved
