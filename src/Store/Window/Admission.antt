-- ===== src/Store/Window/Admission.antt =====
-- How many calls of a fixed window are let through.
use forwardlimit.Common.{ℕ, suc, ◌-◌, ◌<◌, ◌≡◌, if◌then◌else◌, leb, arith}
use forwardlimit.Common.Int.{pos, increment-pos, two_63}
use forwardlimit.Store.Window.{Phase, counting, blocked, step}

-- The phase of a bucket after `n` calls of a window that has the limit `l`.
abbrev pub phase_after : ℕ → ℕ → Phase
phase_after l n = if leb n l then counting (pos n) else blocked

pub step-phase_after :
    (l n : ℕ)
    → l < two_63 - 1
    → let v = step (pos l) (phase_after l n) in
      (v.rejected ≡ leb l n) × (v.next ≡ phase_after l (suc n))
step-phase_after l n h = ground (arith, increment-pos n)
