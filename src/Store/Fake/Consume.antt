-- ===== src/Store/Fake/Consume.antt =====
-- `Consume` of internal/store/storetest, on one bucket and on the others, and beside the `Consume` of
-- internal/store/redisstore.
use forwardlimit.Common.{
  ◌-◌, ◌≡◌, ◌≢◌, refl, ap, Bool, true, false, none, inl, inr, Bool-cases, Option-cases,
}
use forwardlimit.Common.Int.{ℤ, pos, increment, ◌<ℤ◌, two_63}
use forwardlimit.Common.Text.{Text, Lacks, text_eq, text_eq→eq}
use forwardlimit.Common.Assoc.{lookup}
use forwardlimit.Store.{Time, Key, key_string, Rule, rule_valid, Result, Reply, ok, err, panicked}
use forwardlimit.Store.Keys.{key_string-injective}
use forwardlimit.Store.Window.{step}
use forwardlimit.Store.Redis.{Commands}
use forwardlimit.Store.Redis.Laws.{Laws}
use forwardlimit.Store.Redis.Consume.{direct, phase_of, IsTidyFor, consume-step}
use forwardlimit.Store.Fake.{Fake, consume}
use forwardlimit.Store.Fake.Refines.{phase_at, wait, decide-step, decide-other}

module _ {F W : Type 0} where
  -- The time that a call reads.
  abbrev pub time_of : Fake F W × W → Time
  time_of (f, w) = (f.clock.now w).0

  -- Where no error is set, `Consume` refines the specification of a window, as the Redis store does: its
  -- result is that of the verdict on the bucket's phase at the time that it reads, with what is left of the
  -- block or the rule's block to wait, and the phase at that time moves as specified.
  pub consume-verdict :
      (key : Key) (rule : Rule) (f : Fake F W) (w : W)
      → rule_valid rule ≡ true
      → f.error ≡ none
      → let t = time_of (f, w) in
        let k = key_string key in
        let v = step rule.limit (phase_at k t f) in
        let (r, s) = consume key rule (f, w) in
        (r
          ≡ ok (record {
            blocked = v.rejected;
            count = v.count;
            retry_after = wait (lookup k f.blocked) t rule.block v;
          }))
        × (phase_at k t s.0 ≡ v.next)
  unfolding consume
  consume-verdict key rule f w valid clean =
      let called = record f { calls = increment f.calls } in
      let (said, moved) = decide-step (key_string key) rule (time_of (f, w)) called valid in
      rw (clean, consume) (ap ok said, moved)

  -- A call leaves every other bucket in its phase at every time, as long as no limiter's name holds a
  -- colon.
  pub consume-other :
      (i j : Key) (rule : Rule) (t : Time) (f : Fake F W) (w : W)
      → Lacks b':' i.limiter
      → Lacks b':' j.limiter
      → i ≢ j
      → phase_at (key_string j) t (consume i rule (f, w)).1.0 ≡ phase_at (key_string j) t f
  unfolding consume
  consume-other i j rule t f w hi hj apart =
      let called = record f { calls = increment f.calls } in
      let different : text_eq (key_string i) (key_string j) ≡ false =
        elim (Bool-cases (text_eq (key_string i) (key_string j))) [
          | inl e ↦
              absurd (
                apart (key_string-injective i j hi hj (text_eq→eq (key_string i) (key_string j) e)))
          | inr n ↦ n
        ] in
      let (counts, expires, blocks) =
        decide-other (key_string j) (key_string i) rule (time_of (f, w)) called different in
      elim (Option-cases f.error) [
        | inl clean ↦ rw (clean, consume) (rw (counts, expires, blocks) refl)
        | inr (e, failing) ↦ rw (failing, consume) refl
      ]

  -- The fake stands for the Redis store: of two states in which a bucket has the same phase, both calls
  -- give the same verdict and the same count, and the phases are the same again. The rule is valid, with a
  -- limit below the largest int64; the fake has no error set; Redis is reached, no key expires during its
  -- script, and its counter, if there is one, has an expiry and has not reached the largest int64.
  pub consume-agrees :
      {V : Type 0} (redis : Commands V) (laws : Laws redis) (prefix : Text) (key : Key)
      (rule : Rule) (f : Fake F W) (w : W) (v : V)
      → rule_valid rule ≡ true
      → rule.limit <ℤ pos (two_63 - 1)
      → f.error ≡ none
      → IsTidyFor redis laws prefix key v
      → phase_at (key_string key) (time_of (f, w)) f ≡ phase_of redis laws prefix key v
      → let (r, s) = consume key rule (f, w) in
        let (q, u) = forwardlimit.Store.Redis.consume redis direct prefix key rule v in
        (b : Bool) × (n faked real : ℤ) × (r
          ≡ ok (record { blocked = b; count = n; retry_after = faked }))
        × (q ≡ ok (record { blocked = b; count = n; retry_after = real }))
        × (phase_at (key_string key) (time_of (f, w)) s.0 ≡ phase_of redis laws prefix key u)
  consume-agrees redis laws prefix key rule f w v valid below clean tidy same =
      let (said, moved) = consume-verdict key rule f w valid clean in
      let (answered, went, kept) = consume-step redis laws prefix key rule v valid below tidy in
      let p = phase_of redis laws prefix key v in
      let d = step rule.limit p in
      let t = time_of (f, w) in
      (
        d.rejected,
        d.count,
        wait (lookup (key_string key) f.blocked) t rule.block d,
        _,
        rw (← same) said,
        answered,
        rw (moved, went, same) refl,
      )
