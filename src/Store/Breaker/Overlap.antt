-- ===== src/Store/Breaker/Overlap.antt =====
-- The critical sections of internal/store/breaker in any order: calls that overlap.
use forwardlimit.Common.{◌-◌, true, false, arith}
use forwardlimit.Common.Int.{pos, increment, ◌<ℤ◌, two_63}
use forwardlimit.Store.{Clock}
use forwardlimit.Store.Breaker.{Breaker, allow, record_call}
use forwardlimit.Store.Breaker.Machine.{IsWellFormed, add_time-pos}

module _ {W : Type 0} (clock : Clock W) where
  -- What any interleaving of calls does to the breaker: `allow` at the start of one, and `record` at the
  -- end of one, while fewer than 2^63 - 1 calls in a row have failed.
  pub data Step (b : Breaker) : Breaker → Type 0 where
    asks : (w : W) → Step b (allow clock b w).1
    succeeds : (w : W) → Step b (record_call clock true b w).0
    fails : (w : W) → b.failures <ℤ pos (two_63 - 1) → Step b (record_call clock false b w).0

  pub data Reach (b : Breaker) : Breaker → Type 0 where
    here : Reach b b
    next : {c d : Breaker} → Reach b c → Step c d → Reach b d

  allow-IsWellFormed : (b : Breaker) (w : W) → IsWellFormed b → IsWellFormed (allow clock b w).1
  unfolding allow
  allow-IsWellFormed b w v = ground arith

  success-IsWellFormed :
      (b : Breaker) (w : W) → IsWellFormed b → IsWellFormed (record_call clock true b w).0
  unfolding record_call
  success-IsWellFormed b w v = ground arith

  failure-IsWellFormed :
      (b : Breaker) (w : W)
      → IsWellFormed b
      → b.failures <ℤ pos (two_63 - 1)
      → IsWellFormed (record_call clock false b w).0
  unfolding record_call increment
  failure-IsWellFormed b w v l = ground (arith, add_time-pos (clock.now w).0 b.cooldown)

  Step-IsWellFormed : {b c : Breaker} → Step b c → IsWellFormed b → IsWellFormed c
  Step-IsWellFormed {b} (asks w) v = allow-IsWellFormed b w v
  Step-IsWellFormed {b} (succeeds w) v = success-IsWellFormed b w v
  Step-IsWellFormed {b} (fails w l) v = failure-IsWellFormed b w v l

  -- However calls overlap, the fields of a well-formed breaker stay consistent, while fewer than 2^63 - 1 calls
  -- in a row fail: the circuit is open exactly while the failures in a row have reached the threshold, and the
  -- flag `probing` is set only while it is open. The probe itself may still be out when another call has
  -- closed the circuit; the flag is then clear.
  pub Reach-IsWellFormed : {b c : Breaker} → IsWellFormed b → Reach b c → IsWellFormed c
  Reach-IsWellFormed v here = v
  Reach-IsWellFormed v (next r s) = Step-IsWellFormed s (Reach-IsWellFormed v r)
