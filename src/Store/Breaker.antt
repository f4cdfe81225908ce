-- ===== src/Store/Breaker.antt =====
-- internal/store/breaker/breaker.go. The decorated store's world is the breaker's fields beside the
-- inner store's world. A method runs under the mutex, so it is one step.
pub mod Machine
pub mod Invariant
pub mod Trips
pub mod Faults
pub mod Recovery
pub mod Overlap
use forwardlimit.Common.{Bool, true, false, not, Option, none, some, if◌then◌else◌, ltb, ◌≡◌, refl}
use forwardlimit.Common.Int.{ℤ, pos, leb_ℤ, increment}
use forwardlimit.Store.{
  Store, Clock, Time, Reply, ok, err, panicked, circuit_open, is_zero, add_time,
}

-- The options and the fields of `Store`; the mutex is left out.
pub record Breaker : Type 0 where
  pub threshold : ℤ
  pub cooldown : ℤ
  pub failures : ℤ
  pub open_until : Time
  pub probing : Bool

unfoldable pub new : ℤ → ℤ → Breaker
new threshold cooldown = record {
  threshold = threshold;
  cooldown = cooldown;
  failures = pos 0;
  open_until = 0;
  probing = false;
}

-- `isOpenLocked`, and `Open`.
abbrev pub is_open : Breaker → Bool
is_open b = not (is_zero b.open_until)

module _ {W : Type 0} (clock : Clock W) where
  -- The clock is read only when the breaker is open and no probe is out.
  unfoldable pub allow : Breaker → W → Bool × Breaker × W
  allow b w =
      let (t, w') = clock.now w in
      if leb_ℤ b.threshold (pos 0)
      then (true, b, w)
      else if not (is_open b)
      then (true, b, w)
      else if b.probing
      then (false, b, w)
      else if ltb t b.open_until
      then (false, b, w')
      else (true, record b { probing = true }, w')

  unfoldable pub record_call : Bool → Breaker → W → Breaker × W
  record_call success b w =
      let (t, w') = clock.now w in
      let failures = increment b.failures in
      if leb_ℤ b.threshold (pos 0)
      then (b, w)
      else if success
      then (record b { probing = false; failures = pos 0; open_until = 0 }, w)
      else if leb_ℤ b.threshold failures
      then (
        record b { probing = false; failures = failures; open_until = add_time t b.cooldown },
        w',
      )
      else (record b { probing = false; failures = failures }, w)

  module _ {A : Type 0} where
    -- A panic of the inner call unwinds past `record`.
    unfoldable pub settle : Reply A × W → Breaker → Reply A × (Breaker × W)
    unfolding record_call
    settle (ok a, w) b = (ok a, record_call true b w)
    settle (err e, w) b = (err e, record_call false b w)
    settle (panicked, w) b = (panicked, (b, w))

    -- The body that `Consume` and `Take` share.
    unfoldable pub guarded : (W → Reply A × W) → Breaker × W → Reply A × (Breaker × W)
    unfolding allow settle
    guarded call (b, w) =
        let (admitted, b', w') = allow b w in
        if admitted then settle (call w') b' else (err circuit_open, (b', w'))

-- `New`, seen through the interface.
abbrev pub breaker_store : {W : Type 0} → Store W → Clock W → Store (Breaker × W)
breaker_store inner clock = record {
  consume = λ k r s. guarded clock (inner.consume k r) s;
  take = λ k b s. guarded clock (inner.take k b) s;
  close = λ s. let (e, w) = inner.close s.1 in (e, (s.0, w));
}
