-- ===== src/Server/Process/Orderly.antt =====
-- How the process of cmd/forwardlimit/main.go ends.
use forwardlimit.Common.{
  suc, ◌+◌, ◌≡◌, ◌∙◌, ap, subst, refl, Bool, true, false, if◌then◌else◌, List, [], ◌∷◌, length,
  arith, length-append,
}
use forwardlimit.Common.Int.{pos}
use forwardlimit.Httpapi.{HttpRequest, Handler}
use forwardlimit.Server.Assembly.{Assembled}
use forwardlimit.Server.Process.{
  Ending, stopped, listen_error, shutdown_error, exit_code, Phase, waiting, draining, over, is_over,
  Process, begin, Step, accepts, answers, publishes, stops_publishing, sweeps, receives_signal,
  fails_to_listen, takes_error, takes_signal, shuts_down, runs_late, Reach, here, next,
}

-- What has happened before a phase: whether a signal came, the listener failed, and what is still handled.
abbrev Reason : Phase → Bool → Bool → List HttpRequest → Type 0
Reason waiting signalled failed handling = Unit {0}
Reason draining signalled failed handling = signalled ≡ true
Reason (over stopped) signalled failed handling = (signalled ≡ true) × (handling ≡ [])
Reason (over listen_error) signalled failed handling = failed ≡ true
Reason (over shutdown_error) signalled failed handling = signalled ≡ true

-- It is kept until the end, as long as a signal is not forgotten.
Reason-open :
    (p : Phase) (b b' f f' : Bool) (rs rs' : List HttpRequest)
    → is_over p ≡ false
    → (b ≡ true → b' ≡ true)
    → Reason p b f rs
    → Reason p b' f' rs'
Reason-open waiting b b' f f' rs rs' o keeps r = tt
Reason-open draining b b' f f' rs rs' o keeps r = keeps r
Reason-open (over e) b b' f f' rs rs' o keeps r = absurd (ground arith)

record IsOrderly {W : Type 0} (s : Process W) : Type 0 where
  reason : Reason s.phase s.signalled s.failed s.handling
  closed_once : s.closes ≡ (if is_over s.phase then 1 else 0)
  counted : length s.answered + length s.handling ≡ s.accepted

module _ {W : Type 0} (a : Assembled W) (h : Handler a.World) where
  -- Not over yet, and still not.
  open-IsOrderly :
      (s t : Process a.World)
      → is_over s.phase ≡ false
      → t.phase ≡ s.phase
      → (s.signalled ≡ true → t.signalled ≡ true)
      → t.closes ≡ s.closes
      → length t.answered + length t.handling ≡ t.accepted
      → IsOrderly s
      → IsOrderly t
  open-IsOrderly s t o p keeps closes counted v = record {
    reason = rw p (
        Reason-open s.phase s.signalled t.signalled s.failed t.failed s.handling t.handling o keeps
          v.reason);
    closed_once = closes ∙ rw p v.closed_once;
    counted = counted;
  }

  Step-IsOrderly : {s t : Process a.World} → Step a h s t → IsOrderly s → IsOrderly t
  Step-IsOrderly {s} (accepts r p f) v =
      open-IsOrderly s _ (rw p refl) refl (λ e. e) refl (omega (arith, v.counted)) v
  Step-IsOrderly {s} (answers r before after p e) v =
      open-IsOrderly s _ p refl (λ e. e) refl
        (omega (
          arith,
          v.counted,
          ap length e,
          length-append before (r ∷ after),
          length-append before after,
        ))
        v
  Step-IsOrderly {s} (publishes p q) v = open-IsOrderly s _ p refl (λ e. e) refl v.counted v
  Step-IsOrderly {s} (stops_publishing p q) v = open-IsOrderly s _ p refl (λ e. e) refl v.counted v
  Step-IsOrderly {s} (sweeps p) v = open-IsOrderly s _ p refl (λ e. e) refl v.counted v
  Step-IsOrderly {s} (receives_signal p) v = open-IsOrderly s _ p refl (λ e. refl) refl v.counted v
  Step-IsOrderly {s} (fails_to_listen p) v =
      open-IsOrderly s _ (rw p refl) refl (λ e. e) refl v.counted v
  Step-IsOrderly {s} (takes_error p f) v = record {
    reason = f;
    closed_once = ap suc (v.closed_once ∙ rw p refl);
    counted = v.counted;
  }
  Step-IsOrderly {s} (takes_signal p q) v = record {
    reason = q;
    closed_once = v.closed_once ∙ rw p refl;
    counted = v.counted;
  }
  Step-IsOrderly {s} (shuts_down p e) v = record {
    reason = (subst (λ ph. Reason ph s.signalled s.failed s.handling) p v.reason, e);
    closed_once = ap suc (v.closed_once ∙ rw p refl);
    counted = v.counted;
  }
  Step-IsOrderly {s} (runs_late p) v = record {
    reason = subst (λ ph. Reason ph s.signalled s.failed s.handling) p v.reason;
    closed_once = ap suc (v.closed_once ∙ rw p refl);
    counted = v.counted;
  }

  Reach-IsOrderly : {s t : Process a.World} → Reach a h s t → IsOrderly s → IsOrderly t
  Reach-IsOrderly here v = v
  Reach-IsOrderly (next r st) v = Step-IsOrderly st (Reach-IsOrderly r v)

  begin-IsOrderly : (w : W) → IsOrderly (begin a h w)
  begin-IsOrderly w = record { reason = tt; closed_once = refl; counted = refl }

  -- What each way to end tells: the exit code, and why it ended so.
  abbrev pub Tells : Ending → Process a.World → Type 0
  Tells stopped t =
      (exit_code stopped ≡ pos 0) × (t.signalled ≡ true) × (length t.answered ≡ t.accepted)
  Tells listen_error t = (exit_code listen_error ≡ pos 1) × (t.failed ≡ true)
  Tells shutdown_error t = (exit_code shutdown_error ≡ pos 1) × (t.signalled ≡ true)

  tells :
      (e : Ending) (t : Process a.World)
      → length t.answered + length t.handling ≡ t.accepted
      → Reason (over e) t.signalled t.failed t.handling
      → Tells e t
  tells stopped t n (came, idle) = (refl, came, omega (arith, n, ap length idle))
  tells listen_error t n r = (refl, r)
  tells shutdown_error t n r = (refl, r)

  -- Once the process listens, whatever requests, signals, faults of the listener, ticks and sweeps come, in
  -- whatever order: when it is over, the store was closed exactly once, and the requests that were accepted
  -- are those that were answered and those that were cut off. It ends with the code 0 only after a signal
  -- and with no request cut off; with the code 1 after a fault of the listener, or after a signal.
  pub exit_graceful :
      (w : W) (t : Process a.World) (e : Ending)
      → Reach a h (begin a h w) t
      → t.phase ≡ over e
      → (t.closes ≡ 1) × (length t.answered + length t.handling ≡ t.accepted) × Tells e t
  exit_graceful w t e r p =
      let v = Reach-IsOrderly r (begin-IsOrderly w) in
      (
        v.closed_once ∙ rw p refl,
        v.counted,
        tells e t v.counted (subst (λ ph. Reason ph t.signalled t.failed t.handling) p v.reason),
      )
