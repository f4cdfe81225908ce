-- ===== src/Store/Breaker/Recovery.antt =====
-- How the breaker of internal/store/breaker comes back, and what calls that overlap keep.
use forwardlimit.Common.{
  ◌≤◌, ◌≡◌, ◌≢◌, refl, ◌∙◌, Bool, true, false, List, [], ◌∷◌, All, arith, inl, inr, Bool-cases,
}
use forwardlimit.Common.Int.{ℤ, pos, ◌<ℤ◌}
use forwardlimit.Store.{Clock, Reply, ok, err, panicked}
use forwardlimit.Store.Breaker.{Breaker, is_open, allow, record_call, settle, guarded, new}
use forwardlimit.Store.Breaker.Invariant.{run}

module _ {W : Type 0} (clock : Clock W) where
  -- No probe is out, and the threshold is the one that was set.
  abbrev IsIdle : ℤ → Breaker → Type 0
  IsIdle threshold b = (b.probing ≡ false) × (b.threshold ≡ threshold)

  record_call-IsIdle :
      (threshold : ℤ) (success : Bool) (b : Breaker) (w : W)
      → pos 0 <ℤ threshold
      → b.threshold ≡ threshold
      → IsIdle threshold (record_call clock success b w).0
  unfolding record_call
  record_call-IsIdle threshold success b w h e = ground arith

  allow-threshold : (b : Breaker) (w : W) → (allow clock b w).1.threshold ≡ b.threshold
  unfolding allow
  allow-threshold b w = ground arith

  allow-refused : (b : Breaker) (w : W) → (allow clock b w).0 ≡ false → (allow clock b w).1 ≡ b
  unfolding allow
  allow-refused b w h = ground arith

  allow-due :
      (b : Breaker) (w : W)
      → b.probing ≡ false
      → b.open_until ≤ (clock.now w).0
      → (allow clock b w).0 ≡ true
  unfolding allow
  allow-due b w idle due = ground arith

  module _ {A : Type 0} where
    -- The call returns, with an answer or an error.
    abbrev pub Returns : (W → Reply A × W) → Type 0
    Returns call = (w : W) → (call w).0 ≢ panicked

    -- The store answers.
    abbrev pub Answers : (W → Reply A × W) → Type 0
    Answers call = (w : W) → (a : A) × ((call w).0 ≡ ok a)

    settle-IsIdle :
        (threshold : ℤ) (r : Reply A) (w : W) (b : Breaker)
        → pos 0 <ℤ threshold
        → b.threshold ≡ threshold
        → r ≢ panicked
        → IsIdle threshold (settle clock (r, w) b).1.0
    unfolding settle
    settle-IsIdle threshold (ok a) w b h e n = record_call-IsIdle threshold true b w h e
    settle-IsIdle threshold (err x) w b h e n = record_call-IsIdle threshold false b w h e
    settle-IsIdle threshold panicked w b h e n = absurd (n refl)

    guarded-IsIdle :
        (threshold : ℤ) (call : W → Reply A × W) (b : Breaker) (w : W)
        → pos 0 <ℤ threshold
        → Returns call
        → IsIdle threshold b
        → IsIdle threshold (guarded clock call (b, w)).1.0
    unfolding guarded
    guarded-IsIdle threshold call b w h returns (idle, e) = elim (Bool-cases (allow clock b w).0) [
      | inl y ↦
          rw (y, guarded)
            (settle-IsIdle threshold (call (allow clock b w).2).0 _ _ h (allow-threshold b w ∙ e)
              (returns _))
      | inr n ↦ rw (n, guarded) (rw (allow-refused b w n) (idle, e))
    ]

    run-IsIdle :
        (threshold : ℤ) (calls : List (W → Reply A × W)) (b : Breaker) (w : W)
        → pos 0 <ℤ threshold
        → All Returns calls
        → IsIdle threshold b
        → IsIdle threshold (run clock calls (b, w)).1.0
    run-IsIdle threshold [] b w h a idle = idle
    run-IsIdle threshold (call ∷ calls) b w h (returns, rest) idle =
        run-IsIdle threshold calls _ _ h rest (guarded-IsIdle threshold call b w h returns idle)

    settle-ok :
        (r : Reply A) (a : A) (w : W) (b : Breaker)
        → pos 0 <ℤ b.threshold
        → r ≡ ok a
        → ((settle clock (r, w) b).0 ≡ ok a) × (is_open (settle clock (r, w) b).1.0 ≡ false)
    unfolding settle record_call
    settle-ok r a w b h e = rw (e, settle, record_call) (ground arith)

    -- The store comes back: whatever calls a new breaker has seen, and however many of them failed, if none
    -- panicked then the next call to a store that answers, at a time that is not before the deadline, gets the
    -- store's answer, and closes the circuit.
    pub recovers :
        (threshold cooldown : ℤ) (calls : List (W → Reply A × W)) (call : W → Reply A × W) (w v : W)
        → pos 0 <ℤ threshold
        → All Returns calls
        → Answers call
        → (run clock calls (new threshold cooldown, w)).1.0.open_until ≤ (clock.now v).0
        → let b = (run clock calls (new threshold cooldown, w)).1.0 in
          let (r, s) = guarded clock call (b, v) in (a : A) × (r ≡ ok a) × (is_open s.0 ≡ false)
    unfolding new guarded
    recovers threshold cooldown calls call w v h returns answers due =
        let b = (run clock calls (new threshold cooldown, w)).1.0 in
        let (idle, same) =
          run-IsIdle threshold calls (new threshold cooldown) w h returns (refl, refl) in
        let (a, e) = answers (allow clock b v).2 in
        let (said, shut) =
          settle-ok (call (allow clock b v).2).0 a (call (allow clock b v).2).1 (allow clock b v).1
            (rw (allow-threshold b v, same) h) e in
        rw (allow-due b v idle due, guarded) (a, said, shut)
