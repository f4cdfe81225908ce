-- ===== src/Tests/Breakers.antt =====
-- The breaker of internal/store/breaker: a closed one, and an open one whose time has come.
use forwardlimit.Common.{ℕ, suc, ◌≡◌, refl, true, false, [], ◌∷◌, arith}
use forwardlimit.Common.Int.{pos, increment, wrap}
use forwardlimit.Store.{Reply, ok, err, panicked, circuit_open, other_error}
use forwardlimit.Store.Breaker.{Breaker, new, is_open, guarded, allow, record_call, settle}
use forwardlimit.Store.Breaker.Machine.{
  IsWellFormed, circuit, probe, seen, run_call, guarded-run_call,
}
use forwardlimit.Store.Breaker.Invariant.{run}
use forwardlimit.Store.Breaker.Trips.{failing, failing-is_open}
use forwardlimit.Store.Breaker.Faults.{probe_panics}
use forwardlimit.Store.Breaker.Recovery.{recovers}
use forwardlimit.Store.Breaker.Overlap.{Reach, here, next, asks, Reach-IsWellFormed}
use forwardlimit.Tests.{ticking}

abbrev shut : Breaker
shut = record {
  threshold = pos 2;
  cooldown = pos 5;
  failures = pos 2;
  open_until = 7;
  probing = false;
}

shut-IsWellFormed : IsWellFormed shut
shut-IsWellFormed = ground arith

abbrev fails : ℕ → Reply ℕ × ℕ
fails w = (err (other_error []), suc w)

abbrev works : ℕ → Reply ℕ × ℕ
works w = (ok w, suc w)

abbrev breaks : ℕ → Reply ℕ × ℕ
breaks w = (panicked, suc w)

guarded-run_call_example :
    seen ticking (guarded ticking fails (shut, 9))
    ≡ run_call ticking (pos 2) (pos 5) (circuit shut) fails 9
guarded-run_call_example = guarded-run_call ticking fails shut 9 shut-IsWellFormed (omega arith)

failing-is_open_example : is_open (failing ticking 2 fails (new (pos 3) (pos 5), 9)).0 ≡ false
failing-is_open_example =
    failing-is_open ticking 2 3 5 fails 9 (λ w. (other_error [], refl)) (omega arith) (omega arith)
      (omega arith) (omega arith)

probe_panics_example :
    run ticking (breaks ∷ works ∷ []) (shut, 9)
    ≡ (panicked ∷ err circuit_open ∷ [], (probe shut, 11))
probe_panics_example =
    probe_panics ticking breaks (works ∷ []) shut 9 11 shut-IsWellFormed refl refl (omega arith)
      refl

-- Two failures open the circuit until 15; the store answers at 20.
recovers_example :
    let b = (run ticking (fails ∷ fails ∷ []) (new (pos 2) (pos 5), 8)).1.0 in
    let (r, s) = guarded ticking works (b, 20) in (a : ℕ) × (r ≡ ok a) × (is_open s.0 ≡ false)
unfolding guarded allow settle record_call new increment wrap
recovers_example =
    recovers ticking (pos 2) (pos 5) (fails ∷ fails ∷ []) works 8 20 (omega arith)
      ((λ w e. absurd (ground arith)), ((λ w e. absurd (ground arith)), tt)) (λ w. (w, refl))
      (omega arith)

-- A call asks while a probe is out, and one that had begun before fails.
late_failure :
    Reach ticking shut (record_call ticking false (allow ticking (allow ticking shut 9).1 9).1 9).0
unfolding allow
late_failure =
    next (next (next here (asks 9)) (asks 9))
      (forwardlimit.Store.Breaker.Overlap.fails 9 (omega arith))

Reach-IsWellFormed_example :
    IsWellFormed (record_call ticking false (allow ticking (allow ticking shut 9).1 9).1 9).0
Reach-IsWellFormed_example = Reach-IsWellFormed ticking shut-IsWellFormed late_failure

-- That failure ends the probe's turn: after one more cooldown a second probe is let through, although the
-- first is still out.
second_probe :
    let (first, b, w) = allow ticking shut 9 in
    let (b', w') = record_call ticking false b w in
    (first ≡ true) × ((allow ticking b' 20).0 ≡ true)
unfolding allow record_call increment wrap
second_probe = (refl, refl)
