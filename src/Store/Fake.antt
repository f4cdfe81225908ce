-- ===== src/Store/Fake.antt =====
-- internal/store/storetest/fake.go: the store in memory that the tests run the engine on. A method
-- runs under the mutex, so it is one step.
pub mod Refines
pub mod Consume
pub mod Take
use forwardlimit.Common.{Bool, true, false, Option, none, some, List, [], if◌then◌else◌, ltb}
use forwardlimit.Common.Int.{ℤ, pos, negsuc, ltb_ℤ, increment}
use forwardlimit.Common.Float.{Float}
use forwardlimit.Common.Text.{Text}
use forwardlimit.Common.Assoc.{lookup, insert, remove, or_zero}
use forwardlimit.Store.{
  Store, Clock, Time, Key, key_string, Rule, Result, Bucket, TakeResult, Reply, ok, err, Error,
  add_time, sub_time,
}

-- `bucketState`
pub record BucketState (F : Type 0) : Type 0 where
  pub tokens : F
  pub ts : Time

-- The fields of `Fake` but for the mutex; `clock` is `now`.
pub record Fake (F W : Type 0) : Type 0 where
  pub counts : List (Text × ℤ)
  pub expires : List (Text × Time)
  pub blocked : List (Text × Time)
  pub buckets : List (Text × BucketState F)
  pub clock : Clock W
  pub error : Option Error
  pub calls : ℤ
  pub closed : Bool

-- Whether a deadline is there, and ahead.
abbrev pub is_ahead : Option Time → Time → Bool
is_ahead none t = false
is_ahead (some until) t = ltb t until

-- The tokens of a bucket once it is refilled; a new one is full.
unfoldable pub refill : {F : Type 0} → Float F → Option (BucketState F) → Bucket → Time → F
unfolding sub_time
refill float none bucket t = float.of_int bucket.burst
refill float (some b) bucket t =
    let elapsed = sub_time t b.ts in
    let burst = float.of_int bucket.burst in
    let tokens =
      float.add b.tokens (float.mul (float.seconds elapsed) (float.of_int bucket.rate)) in
    if ltb_ℤ (pos 0) elapsed then (if float.lt burst tokens then burst else tokens) else b.tokens

module _ {F W : Type 0} where
  -- `New`; `clock` is that of the machine.
  unfoldable pub new : Clock W → Fake F W
  new clock = record {
    counts = [];
    expires = [];
    blocked = [];
    buckets = [];
    clock = clock;
    error = none;
    calls = pos 0;
    closed = false;
  }

  -- `SetClock`
  abbrev pub set_clock : Clock W → Fake F W → Fake F W
  set_clock clock f = record f { clock = clock }

  -- The window rolls over.
  unfoldable pub roll : Text → ℤ → Time → Fake F W → Fake F W
  unfolding insert lookup
  roll k window t f = if is_ahead (lookup k f.expires) t then f else record f {
    counts = insert k (pos 0) f.counts;
    expires = insert k (add_time t window) f.expires;
  }

  -- `Consume` where the bucket is not blocked.
  unfoldable pub count_call : Text → Rule → Time → Fake F W → Result × Fake F W
  unfolding roll lookup insert remove increment
  count_call k rule t f =
      let g = roll k rule.window t f in
      let n = increment (or_zero (lookup k g.counts)) in
      let counted = insert k n g.counts in
      if ltb_ℤ rule.limit n
      then (
        record { blocked = true; count = n; retry_after = rule.block },
        record g {
          blocked = insert k (add_time t rule.block) g.blocked;
          counts = remove k counted;
          expires = remove k g.expires;
        },
      )
      else (
        record { blocked = false; count = n; retry_after = pos 0 },
        record g { counts = counted },
      )

  unfoldable pub decide : Text → Rule → Time → Fake F W → Result × Fake F W
  unfolding count_call lookup remove sub_time
  decide k rule t f = elim (lookup k f.blocked) [
    | none ↦ count_call k rule t f
    | some until ↦
        let freed = count_call k rule t (record f { blocked = remove k f.blocked }) in
        if ltb t until
        then (record { blocked = true; count = negsuc 0; retry_after = sub_time until t }, f)
        else freed
  ]

  unfoldable pub consume : Key → Rule → Fake F W × W → Reply Result × (Fake F W × W)
  unfolding decide increment
  consume key rule (f, w) =
      let called = record f { calls = increment f.calls } in
      let (t, w') = f.clock.now w in
      let (res, g) = decide (key_string key) rule t called in
      elim f.error [ some e ↦ (err e, (called, w)) | none ↦ (ok res, (g, w')) ]

  -- `Close`
  abbrev pub close : Fake F W × W → Option Error × (Fake F W × W)
  close (f, w) = (none, (record f { closed = true }, w))

  -- `CallCount`
  abbrev pub call_count : Fake F W → ℤ
  call_count f = f.calls

  module _ (float : Float F) where
    unfoldable pub take : Key → Bucket → Fake F W × W → Reply TakeResult × (Fake F W × W)
    unfolding refill lookup insert increment
    take key bucket (f, w) =
        let called = record f { calls = increment f.calls } in
        let k = key_string key in
        let (t, w') = f.clock.now w in
        let tokens = refill float (lookup k f.buckets) bucket t in
        let one = float.of_int (pos 1) in
        let left = float.sub tokens one in
        let wait = float.truncate (
          float.mul (float.div (float.sub one tokens) (float.of_int bucket.rate))
            (float.of_int (pos 1_000_000_000))) in
        let holding = λ (n : F). record called {
          buckets = insert k (record { tokens = n; ts = t }) f.buckets;
        } in
        elim f.error [
          | some e ↦ (err e, (called, w))
          | none ↦
              if float.le one tokens
              then (
                ok (record {
                  allowed = true;
                  remaining = float.truncate left;
                  retry_after = pos 0;
                }),
                (holding left, w'),
              )
              else (
                ok (record { allowed = false; remaining = pos 0; retry_after = wait }),
                (holding tokens, w'),
              )
        ]

    -- A `Fake`, seen through the interface.
    abbrev pub fake_store : Store (Fake F W × W)
    fake_store = record { consume = consume; take = take; close = close }
