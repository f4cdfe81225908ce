-- ===== src/Store/Redis/Consume.antt =====
-- `Consume` of internal/store/redisstore, where the server is reached, against the specification of a
-- window, and a run of calls.
use forwardlimit.Common.{
  ℕ, zero, suc, ◌+◌, ◌-◌, ◌/◌, ◌<◌, ◌≡◌, ◌∙◌, refl, ap, Bool, true, false, ◌&&◌, List, [], ◌∷◌,
  ◌++◌, if◌then◌else◌, leb, arith,
}
use forwardlimit.Common.Int.{ℤ, pos, negsuc, leb_ℤ, ◌<ℤ◌, two_63}
use forwardlimit.Common.Text.{Text, codes, text_eq}
use forwardlimit.Store.{Key, Rule, rule_valid, Reply, ok}
use forwardlimit.Store.Window.{Phase, counting, step}
use forwardlimit.Store.Window.Admission.{phase_after, step-phase_after}
use forwardlimit.Store.Redis.{Commands, decide, consume, base, seconds, of_seconds}
use forwardlimit.Store.Redis.Laws.{Laws}
use forwardlimit.Store.Redis.Refines.{phase, IsTidy, wait, decide-step}

-- A rounded duration is at least one second, so no key is written without an expiry.
pub seconds_pos : (d : ℤ) → (n : ℕ) × (seconds d ≡ pos (suc n))
unfolding seconds
seconds_pos (negsuc d) = (0, refl)
seconds_pos (pos zero) = (0, ground arith)
seconds_pos (pos (suc d)) = ((suc d + 999_999_999) / 1_000_000_000 - 1, ground arith)

keys_apart : (b : Text) → text_eq (b ++ codes ":c") (b ++ codes ":b") ≡ false
unfolding text_eq
keys_apart [] = refl
keys_apart (c ∷ b) = ground (arith, keys_apart b)

pub is_one :
    (b : Bool) → let n : ℤ = if b then pos 1 else pos 0 in (leb_ℤ n (pos 1) && leb_ℤ (pos 1) n) ≡ b
is_one true = refl
is_one false = refl

-- A client that reaches the server.
abbrev pub direct : {W : Type 0} → (W → List ℤ × W) → W → Reply (List ℤ) × W
direct script w = let (raw, w') = script w in (ok raw, w')

module _ {W : Type 0} (redis : Commands W) (laws : Laws redis) (prefix : Text) (k : Key) where
  abbrev pub counter_key : Text
  counter_key = base prefix k ++ codes ":c"

  abbrev pub marker_key : Text
  marker_key = base prefix k ++ codes ":b"

  abbrev pub phase_of : W → Phase
  phase_of = phase redis laws counter_key marker_key

  abbrev pub IsTidyFor : W → Type 0
  IsTidyFor = IsTidy redis laws counter_key marker_key

  consume-decide :
      (rule : Rule) (w : W) (m n : ℕ) (b c t : ℤ)
      → rule_valid rule ≡ true
      → seconds rule.window ≡ pos (suc m)
      → seconds rule.block ≡ pos (suc n)
      → (decide redis counter_key marker_key rule.limit (pos (suc m)) (pos (suc n)) w).0
        ≡ b ∷ c ∷ t ∷ []
      → consume redis direct prefix k rule w ≡ (
        ok (record {
          blocked = leb_ℤ b (pos 1) && leb_ℤ (pos 1) b;
          count = c;
          retry_after = of_seconds t;
        }),
        (decide redis counter_key marker_key rule.limit (pos (suc m)) (pos (suc n)) w).1,
      )
  unfolding consume
  consume-decide rule w m n b c t valid window block e = rw (valid, window, block, e, consume) refl

  -- `Consume` refines the specification, for a valid rule whose limit is below the largest int64, where the
  -- server is reached, no key expires during the script, and the bucket's counter either does not exist or
  -- has an expiry and has not reached the largest int64. The result is that of the verdict on the bucket's
  -- phase, with the time that the block has left or the rule's block in whole seconds; the phase moves as
  -- specified; and the counter is again as it was assumed to be. A counter without an expiry is not covered:
  -- the script gives it none.
  pub consume-step :
      (rule : Rule) (w : W)
      → rule_valid rule ≡ true
      → rule.limit <ℤ pos (two_63 - 1)
      → IsTidyFor w
      → let v = step rule.limit (phase_of w) in
        let (r, w') = consume redis direct prefix k rule w in
        (r
          ≡ ok (record {
            blocked = v.rejected;
            count = v.count;
            retry_after =
                of_seconds (wait (laws.left marker_key w) (seconds rule.block) (phase_of w) v);
          }))
        × (phase_of w' ≡ v.next)
        × IsTidyFor w'
  consume-step rule w valid below tidy =
      let (m, window) = seconds_pos rule.window in
      let (n, block) = seconds_pos rule.block in
      let (said, moved, kept) =
        decide-step redis laws counter_key marker_key (keys_apart (base prefix k)) rule.limit m n w
          tidy.fits below tidy.timed in
      let v = step rule.limit (phase_of w) in
      let ran =
        consume-decide rule w m n (if v.rejected then pos 1 else pos 0) v.count
          (wait (laws.left marker_key w) (pos (suc n)) (phase_of w) v) valid window block said in
      rw (ran, block)
        (
          ap
              (λ b. ok (record {
                blocked = b;
                count = v.count;
                retry_after =
                    of_seconds (wait (laws.left marker_key w) (pos (suc n)) (phase_of w) v);
              }))
              (is_one v.rejected),
          moved,
          kept,
        )

  -- The world after `n` calls, one after the other.
  abbrev calls : Rule → ℕ → W → W
  calls rule zero w = w
  calls rule (suc n) w = (consume redis direct prefix k rule (calls rule n w)).1

  calls-phase_of :
      (rule : Rule) (l n : ℕ) (w : W)
      → rule_valid rule ≡ true
      → rule.limit ≡ pos l
      → l < two_63 - 1
      → IsTidyFor w
      → phase_of w ≡ counting (pos 0)
      → (phase_of (calls rule n w) ≡ phase_after l n) × IsTidyFor (calls rule n w)
  calls-phase_of rule l zero w valid limit below tidy fresh = (fresh ∙ ground arith, tidy)
  calls-phase_of rule l (suc n) w valid limit below tidy fresh =
      let (p, kept) = calls-phase_of rule l n w valid limit below tidy fresh in
      let (said, moved, kept') =
        consume-step rule (calls rule n w) valid (rw limit (omega arith)) kept in
      let same : step rule.limit (phase_of (calls rule n w)) ≡ step (pos l) (phase_after l n) =
        ap (step rule.limit) p ∙ ap (λ m. step m (phase_after l n)) limit in
      (moved ∙ ap (λ v. v.next) same ∙ (step-phase_after l n below).1, kept')

  -- From a fresh bucket, and while no key expires, exactly the first `limit` calls are let through: after
  -- `n` calls, the next is rejected if and only if the limit is at most `n`.
  consume-admits :
      (rule : Rule) (l n : ℕ) (w : W)
      → rule_valid rule ≡ true
      → rule.limit ≡ pos l
      → l < two_63 - 1
      → IsTidyFor w
      → phase_of w ≡ counting (pos 0)
      → (count wait : ℤ) × ((consume redis direct prefix k rule (calls rule n w)).0
          ≡ ok (record { blocked = leb l n; count = count; retry_after = wait }))
  consume-admits rule l n w valid limit below tidy fresh =
      let (p, kept) = calls-phase_of rule l n w valid limit below tidy fresh in
      let (said, moved, kept') =
        consume-step rule (calls rule n w) valid (rw limit (omega arith)) kept in
      let admitted : (step rule.limit (phase_of (calls rule n w))).rejected ≡ leb l n =
        ap (λ q. (step rule.limit q).rejected) p
        ∙ ap (λ m. (step m (phase_after l n)).rejected) limit
        ∙ (step-phase_after l n below).0 in
      let v = step rule.limit (phase_of (calls rule n w)) in
      let t = of_seconds (
        wait (laws.left marker_key (calls rule n w)) (seconds rule.block)
          (phase_of (calls rule n w)) v) in
      (
        v.count,
        t,
        said ∙ ap (λ b. ok (record { blocked = b; count = v.count; retry_after = t })) admitted,
      )
