-- ===== src/Store/Breaker/Faults.antt =====
-- A panic of the inner store during a call of internal/store/breaker.
use forwardlimit.Common.{◌≤◌, true, false, ◌≡◌, refl, List, [], ◌∷◌, map}
use forwardlimit.Store.{Clock, Reply, err, panicked, circuit_open}
use forwardlimit.Store.Breaker.{Breaker, is_open, settle}
use forwardlimit.Store.Breaker.Machine.{
  IsWellFormed, probe, probe-IsWellFormed, guarded-probe, guarded_half_open,
}
use forwardlimit.Store.Breaker.Invariant.{run}

module _ {W : Type 0} (clock : Clock W) {A : Type 0} where
  abbrev refused : List (W → Reply A × W) → List (Reply A)
  refused = map (λ _. err circuit_open)

  run_half_open :
      (calls : List (W → Reply A × W)) (b : Breaker) (w : W)
      → IsWellFormed b
      → is_open b ≡ true
      → b.probing ≡ true
      → run clock calls (b, w) ≡ (refused calls, (b, w))
  run_half_open [] b w v h p = refl
  run_half_open (call ∷ calls) b w v h p =
      rw (guarded_half_open clock call b w v h p, run_half_open calls b w v h p)

  -- If calls come one after the other and the store panics in a probe, the breaker refuses every later call,
  -- at whatever time, and the world stays as the panic left it. A call that was admitted before the circuit
  -- opened and is still out is not covered: its end clears the flag of the probe.
  pub probe_panics :
      (call : W → Reply A × W) (calls : List (W → Reply A × W)) (b : Breaker) (w w' : W)
      → IsWellFormed b
      → is_open b ≡ true
      → b.probing ≡ false
      → b.open_until ≤ (clock.now w).0
      → call (clock.now w).1 ≡ (panicked, w')
      → run clock (call ∷ calls) (b, w) ≡ (panicked ∷ refused calls, (probe b, w'))
  unfolding settle
  probe_panics call calls b w w' v h p t e = rw (
    guarded-probe clock call b w v h p t,
    e,
    run_half_open calls (probe b) w' (probe-IsWellFormed b v h) h refl,
  )
