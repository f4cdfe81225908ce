-- ===== src/Store/Breaker/Invariant.antt =====
-- What the breaker of internal/store/breaker keeps from call to call, and runs of failing calls.
use forwardlimit.Common.{◌-◌, ltb, arith, inl, inr, Bool-cases, ltb→lt, List, [], ◌∷◌}
use forwardlimit.Common.Int.{pos, increment, ◌<ℤ◌, two_63}
use forwardlimit.Store.{Clock, Reply, ok, err, panicked}
use forwardlimit.Store.Breaker.{Breaker, is_open, record_call, settle, guarded}
use forwardlimit.Store.Breaker.Machine.{
  IsWellFormed, probe, probe-IsWellFormed, add_time-pos, guarded-closed, guarded_half_open,
  guarded_early, guarded-probe,
}

module _ {W : Type 0} (clock : Clock W) {A : Type 0} where
  settle-IsWellFormed :
      (b : Breaker) (r : Reply A) (w : W)
      → IsWellFormed b
      → b.failures <ℤ pos (two_63 - 1)
      → IsWellFormed (settle clock (r, w) b).1.0
  unfolding settle record_call increment
  settle-IsWellFormed b (ok a) w v l = ground arith
  settle-IsWellFormed b (err e) w v l = ground (arith, add_time-pos (clock.now w).0 b.cooldown)
  settle-IsWellFormed b panicked w v l = v

  -- A call keeps the breaker well formed whatever the inner store does, a panic included: a probe is
  -- out only while the circuit is open, and the circuit is open exactly when the failures in a row
  -- have reached the threshold. The failure count is to be below the largest int64.
  pub guarded-IsWellFormed :
      (call : W → Reply A × W) (b : Breaker) (w : W)
      → IsWellFormed b
      → b.failures <ℤ pos (two_63 - 1)
      → IsWellFormed (guarded clock call (b, w)).1.0
  guarded-IsWellFormed call b w v l = elim (Bool-cases (is_open b)) [
    | inl h ↦ elim (Bool-cases b.probing) [
      | inl p ↦ rw (guarded_half_open clock call b w v h p) v
      | inr p ↦ elim (Bool-cases (ltb (clock.now w).0 b.open_until)) [
        | inl t ↦ rw (guarded_early clock call b w v h p (ltb→lt _ _ t)) v
        | inr t ↦
            rw (guarded-probe clock call b w v h p (ground arith))
              (settle-IsWellFormed (probe b) _ _ (probe-IsWellFormed b v h) l)
      ]
    ]
    | inr h ↦ rw (guarded-closed clock call b w v h) (settle-IsWellFormed b _ _ v l)
  ]

  -- Calls made one after the other.
  abbrev pub run : List (W → Reply A × W) → Breaker × W → List (Reply A) × (Breaker × W)
  run [] s = ([], s)
  run (call ∷ calls) s =
      let (r, s') = guarded clock call s in let (rs, s'') = run calls s' in (r ∷ rs, s'')
