-- ===== src/Store/Breaker/Machine.antt =====
-- The circuit breaker of internal/store/breaker as a machine of three states.
use forwardlimit.Common.{
  ℕ, ◌-◌, ◌<◌, ◌≤◌, true, false, ◌&&◌, not, if◌then◌else◌, ltb, ◌≡◌, refl, arith, inl, inr,
  Bool-cases, ltb→lt, ◌∙◌,
}
use forwardlimit.Common.Int.{ℤ, pos, leb_ℤ, increment, ◌≤ℤ◌, ◌<ℤ◌, two_63}
use forwardlimit.Store.{Clock, Time, Reply, ok, err, panicked, circuit_open, add_time}
use forwardlimit.Store.Breaker.{Breaker, is_open, allow, record_call, settle, guarded, new}

-- What a caller has to know of a breaker: how many calls in a row have failed, until when it is
-- shut off, or that one call is out to probe the store.
pub data Circuit : Type 0 where
  closed : ℤ → Circuit
  opened : Time → Circuit
  half_open : Circuit

abbrev pub circuit : Breaker → Circuit
circuit b =
    if is_open b then (if b.probing then half_open else opened b.open_until) else closed b.failures

module _ {W : Type 0} (clock : Clock W) (threshold cooldown : ℤ) {A : Type 0} where
  -- A failure in the state `n`, or of a probe.
  abbrev pub trip : ℤ → Reply A → W → Reply A × (Circuit × W)
  trip n r w =
      let (t, w') = clock.now w in
      if leb_ℤ threshold n then (r, (opened (add_time t cooldown), w')) else (r, (closed n, w))

  abbrev pub after_call : ℤ → Circuit → Reply A × W → Reply A × (Circuit × W)
  after_call n c (ok a, w) = (ok a, (closed (pos 0), w))
  after_call n c (err e, w) = trip n (err e) w
  after_call n c (panicked, w) = (panicked, (c, w))

  -- The machine: a closed circuit passes the call on and counts, an open one refuses until its time
  -- has come and then lets one probe through, and a half open one refuses.
  abbrev pub run_call : Circuit → (W → Reply A × W) → W → Reply A × (Circuit × W)
  run_call (closed n) call w = after_call (increment n) (closed n) (call w)
  run_call (opened u) call w =
      let (t, w') = clock.now w in
      if ltb t u
      then (err circuit_open, (opened u, w'))
      else after_call threshold half_open (call w')
  run_call half_open call w = (err circuit_open, (half_open, w))

-- What every completed call keeps.
pub record IsWellFormed (b : Breaker) : Type 0 where
  pub threshold_pos : pos 0 <ℤ b.threshold
  pub threshold_fits : b.threshold <ℤ pos two_63
  pub cooldown_pos : pos 0 <ℤ b.cooldown
  pub failures_nonneg : pos 0 ≤ℤ b.failures
  pub probe_open : (b.probing && not (is_open b)) ≡ false
  pub open_failed : is_open b ≡ leb_ℤ b.threshold b.failures

pub new-IsWellFormed : (n c : ℕ) → 0 < n → n < two_63 → 0 < c → IsWellFormed (new (pos n) (pos c))
unfolding new
new-IsWellFormed n c h k l = ground arith

pub add_time-pos : (t : Time) (c : ℤ) → pos 0 <ℤ c → 0 < add_time t c
add_time-pos t c h = ground arith

-- The breaker that `allow` leaves when it lets a probe through.
abbrev pub probe : Breaker → Breaker
probe b = record b { probing = true }

pub probe-IsWellFormed : (b : Breaker) → IsWellFormed b → is_open b ≡ true → IsWellFormed (probe b)
probe-IsWellFormed b v h = record {
  threshold_pos = v.threshold_pos;
  threshold_fits = v.threshold_fits;
  cooldown_pos = v.cooldown_pos;
  failures_nonneg = v.failures_nonneg;
  probe_open = ground arith;
  open_failed = v.open_failed;
}

module _ {W : Type 0} (clock : Clock W) {A : Type 0} where
  abbrev pub seen : Reply A × (Breaker × W) → Reply A × (Circuit × W)
  seen (r, (b, w)) = (r, (circuit b, w))

  settle-closed :
      (b : Breaker) (r : Reply A) (w : W)
      → IsWellFormed b
      → is_open b ≡ false
      → seen (settle clock (r, w) b)
        ≡ after_call clock b.threshold b.cooldown (increment b.failures) (closed b.failures) (r, w)
  unfolding settle record_call
  settle-closed b (ok a) w v h = ground arith
  settle-closed b (err e) w v h = ground (arith, add_time-pos (clock.now w).0 b.cooldown)
  settle-closed b panicked w v h = ground arith

  settle-probe :
      (b : Breaker) (r : Reply A) (w : W)
      → IsWellFormed b
      → b.failures <ℤ pos (two_63 - 1)
      → is_open b ≡ true
      → b.probing ≡ true
      → seen (settle clock (r, w) b)
        ≡ after_call clock b.threshold b.cooldown b.threshold half_open (r, w)
  unfolding settle record_call increment
  settle-probe b (ok a) w v l h p = ground arith
  settle-probe b (err e) w v l h p = ground (arith, add_time-pos (clock.now w).0 b.cooldown)
  settle-probe b panicked w v l h p = ground arith

  -- The cases of `allow`.
  pub guarded-closed :
      (call : W → Reply A × W) (b : Breaker) (w : W)
      → IsWellFormed b
      → is_open b ≡ false
      → guarded clock call (b, w) ≡ settle clock (call w) b
  unfolding guarded allow
  guarded-closed call b w v h = ground arith

  pub guarded_half_open :
      (call : W → Reply A × W) (b : Breaker) (w : W)
      → IsWellFormed b
      → is_open b ≡ true
      → b.probing ≡ true
      → guarded clock call (b, w) ≡ (err circuit_open, (b, w))
  unfolding guarded allow
  guarded_half_open call b w v h p = ground arith

  pub guarded_early :
      (call : W → Reply A × W) (b : Breaker) (w : W)
      → IsWellFormed b
      → is_open b ≡ true
      → b.probing ≡ false
      → (clock.now w).0 < b.open_until
      → guarded clock call (b, w) ≡ (err circuit_open, (b, (clock.now w).1))
  unfolding guarded allow
  guarded_early call b w v h p t = ground arith

  pub guarded-probe :
      (call : W → Reply A × W) (b : Breaker) (w : W)
      → IsWellFormed b
      → is_open b ≡ true
      → b.probing ≡ false
      → b.open_until ≤ (clock.now w).0
      → guarded clock call (b, w) ≡ settle clock (call (clock.now w).1) (probe b)
  unfolding guarded allow
  guarded-probe call b w v h p t = ground arith

  -- The code refines the machine: whatever the inner store answers, a call returns the same outcome,
  -- moves the circuit the same way and touches the world in the same order, if the breaker is well
  -- formed and its failure count is below the largest int64.
  pub guarded-run_call :
      (call : W → Reply A × W) (b : Breaker) (w : W)
      → IsWellFormed b
      → b.failures <ℤ pos (two_63 - 1)
      → seen (guarded clock call (b, w)) ≡ run_call clock b.threshold b.cooldown (circuit b) call w
  guarded-run_call call b w v l = elim (Bool-cases (is_open b)) [
    | inl h ↦ elim (Bool-cases b.probing) [
      | inl p ↦ rw (guarded_half_open call b w v h p) (ground arith)
      | inr p ↦ elim (Bool-cases (ltb (clock.now w).0 b.open_until)) [
        | inl t ↦ rw (guarded_early call b w v h p (ltb→lt _ _ t)) (ground arith)
        | inr t ↦ rw (guarded-probe call b w v h p (ground arith)) (
            settle-probe (probe b) (call (clock.now w).1).0 (call (clock.now w).1).1
              (probe-IsWellFormed b v h) l h refl
            ∙ ground arith)
      ]
    ]
    | inr h ↦
        rw (guarded-closed call b w v h) (settle-closed b (call w).0 (call w).1 v h ∙ ground arith)
  ]
