-- ===== src/Store/Breaker/Trips.antt =====
-- When the breaker of internal/store/breaker opens, what it spares the store, and how it closes.
use forwardlimit.Common.{ℕ, suc, zero, ◌+◌, ◌-◌, ◌<◌, ◌≤◌, true, false, ◌≡◌, refl, arith, leb, ◌∙◌}
use forwardlimit.Common.Int.{pos, leb_ℤ, increment, increment-pos, ◌<ℤ◌, two_63}
use forwardlimit.Store.{Clock, Reply, ok, err, panicked, add_time, Error}
use forwardlimit.Store.Breaker.{Breaker, is_open, record_call, settle, guarded, new}
use forwardlimit.Store.Breaker.Invariant.{guarded-IsWellFormed}
use forwardlimit.Store.Breaker.Machine.{
  Circuit, closed, opened, half_open, circuit, IsWellFormed, probe, add_time-pos, guarded-closed,
  guarded-probe, new-IsWellFormed,
}

module _ {W : Type 0} (clock : Clock W) where
  record_failure :
      (b : Breaker) (w : W)
      → IsWellFormed b
      → is_open b ≡ false
      → let b' = (record_call clock false b w).0 in
        (b'.failures ≡ increment b.failures)
        × (is_open b' ≡ leb_ℤ b.threshold (increment b.failures))
        × (b'.threshold ≡ b.threshold)
  unfolding record_call
  record_failure b w v h = ground (arith, add_time-pos (clock.now w).0 b.cooldown)

module _ {W : Type 0} (clock : Clock W) {A : Type 0} where
  -- Every call fails, whatever the state of the world.
  abbrev pub IsDown : (W → Reply A × W) → Type 0
  IsDown call = (w : W) → (e : Error) × ((call w).0 ≡ err e)

  abbrev pub failing : ℕ → (W → Reply A × W) → Breaker × W → Breaker × W
  failing zero call s = s
  failing (suc n) call s = failing n call (guarded clock call s).1

  failed_call :
      (call : W → Reply A × W) (b : Breaker) (w : W)
      → IsDown call
      → IsWellFormed b
      → is_open b ≡ false
      → (guarded clock call (b, w)).1.0 ≡ (record_call clock false b (call w).1).0
  unfolding settle
  failed_call call b w down v h = rw (guarded-closed clock call b w v h) (ground (arith, down w))

  module _ (call : W → Reply A × W) (down : IsDown call) where
    -- One failed call of a closed breaker.
    failed_once :
        (f k : ℕ) (b : Breaker) (w : W)
        → IsWellFormed b
        → is_open b ≡ false
        → b.threshold ≡ pos k
        → b.failures ≡ pos f
        → f < k
        → let b' = (guarded clock call (b, w)).1.0 in
          IsWellFormed b'
          × (b'.failures ≡ pos (suc f))
          × (b'.threshold ≡ pos k)
          × (is_open b' ≡ leb k (suc f))
    failed_once f k b w v h t e l =
        let fits : suc f < two_63 = ground (arith, v.threshold_fits) in
        let counted = record_failure clock b (call w).1 v h in
        (
          guarded-IsWellFormed clock call b w v (ground arith),
          rw (failed_call call b w down v h) (counted.0 ∙ rw e (increment-pos f fits)),
          rw (failed_call call b w down v h) (counted.2 ∙ t),
          rw (failed_call call b w down v h) (ground (arith, counted.1, increment-pos f fits)),
        )

    -- By induction on the calls that are left until the threshold.
    failing_from :
        (n f k : ℕ) (b : Breaker) (w : W)
        → IsWellFormed b
        → is_open b ≡ false
        → b.threshold ≡ pos k
        → b.failures ≡ pos f
        → f < k
        → f + n ≤ k
        → is_open (failing n call (b, w)).0 ≡ leb k (f + n)
    failing_from zero f k b w v h t e l m = ground arith
    failing_from (suc zero) f k b w v h t e l m = (failed_once f k b w v h t e l).3 ∙ ground arith
    failing_from (suc (suc n)) f k b w v h t e l m =
        let (v', e', t', h') = failed_once f k b w v h t e l in
        failing_from (suc n) (suc f) k (guarded clock call (b, w)).1.0
          (guarded clock call (b, w)).1.1 v' (h' ∙ ground arith) t' e' (omega arith) (omega arith)
        ∙ ground arith

  -- While every call of the store fails, a new breaker of threshold `k` stays closed for fewer than
  -- `k` calls and is open after `k` of them.
  pub failing-is_open :
      (n k c : ℕ) (call : W → Reply A × W) (w : W)
      → IsDown call
      → 0 < k
      → k < two_63
      → 0 < c
      → n ≤ k
      → is_open (failing n call (new (pos k) (pos c), w)).0 ≡ leb k n
  unfolding new
  failing-is_open n k c call w down p q r m =
      failing_from call down n 0 k _ w (new-IsWellFormed k c p q r) refl refl refl p (omega arith)
      ∙ ground arith

  -- What a probe that got this reply leaves behind.
  abbrev pub probed : Breaker → Reply A × W → Circuit
  probed b (ok a, w) = closed (pos 0)
  probed b (err e, w) = opened (add_time (clock.now w).0 b.cooldown)
  probed b (panicked, w) = half_open

  -- An open breaker with no probe out, whose time has come, sends the next call to the store and
  -- returns the store's reply. A success closes the circuit with no failure counted; an error opens it
  -- for another cooldown from the moment of the error; a panic leaves it half open.
  probe-closes :
      (call : W → Reply A × W) (b : Breaker) (w : W)
      → IsWellFormed b
      → b.failures <ℤ pos (two_63 - 1)
      → is_open b ≡ true
      → b.probing ≡ false
      → b.open_until ≤ (clock.now w).0
      → let reply = call (clock.now w).1 in
        let after = guarded clock call (b, w) in
        (after.0 ≡ reply.0) × (circuit after.1.0 ≡ probed b reply)
  unfolding settle record_call increment
  probe-closes call b w v l h p t =
      rw (guarded-probe clock call b w v h p t)
        (reply_of (call (clock.now w).1).0, left (call (clock.now w).1).0 (call (clock.now w).1).1)
    where
      reply_of : (r : Reply A) → (settle clock (r, (call (clock.now w).1).1) (probe b)).0 ≡ r
      reply_of (ok a) = refl
      reply_of (err e) = refl
      reply_of panicked = refl

      left :
          (r : Reply A) (w' : W) → circuit (settle clock (r, w') (probe b)).1.0 ≡ probed b (r, w')
      left (ok a) w' = ground arith
      left (err e) w' = ground (arith, add_time-pos (clock.now w').0 b.cooldown, v.open_failed)
      left panicked w' = ground arith
