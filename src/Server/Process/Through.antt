-- ===== src/Server/Process/Through.antt =====
-- The process of cmd/forwardlimit/main.go while Redis cannot be reached.
use forwardlimit.Common.{◌≡◌, refl, false, All, arith}
use forwardlimit.Common.Int.{pos}
use forwardlimit.Store.Redis.Connect.{ClientOptions}
use forwardlimit.Httpapi.{HttpRequest, Handler}
use forwardlimit.Settings.{Settings}
use forwardlimit.Server.{Platform}
use forwardlimit.Server.Assembly.{Assembled, build_store}
use forwardlimit.Server.Run.{handler_of}
use forwardlimit.Server.Harmless.{IsHarmless}
use forwardlimit.Server.Outage.{IsUnreachable, check-200, build_store-IsHarmless}
use forwardlimit.Server.Process.{
  Process, is_over, begin, Step, accepts, answers, publishes, stops_publishing, sweeps,
  receives_signal, fails_to_listen, takes_error, takes_signal, shuts_down, runs_late, Reach, here,
  next,
}

module _ {W : Type 0} (a : Assembled W) (harmless : IsHarmless a) (h : Handler a.World)
    (same : h.store ≡ a.store) where
  record IsOpen (s : Process a.World) : Type 0 where
    let_through : All (λ c. c ≡ pos 200) s.answered
    kept : is_over s.phase ≡ false → harmless.Keeps s.world

  Step-IsOpen : {s t : Process a.World} → Step a h s t → IsOpen s → IsOpen t
  Step-IsOpen {s} (accepts r p f) v = record { let_through = v.let_through; kept = v.kept }
  Step-IsOpen {s} (answers r before after p e) v =
      let (status, keeps) = check-200 a harmless h same r s.metrics s.world (v.kept p) in
      record { let_through = (status, v.let_through); kept = λ o. keeps }
  Step-IsOpen {s} (publishes p q) v = record { let_through = v.let_through; kept = v.kept }
  Step-IsOpen {s} (stops_publishing p q) v = record { let_through = v.let_through; kept = v.kept }
  Step-IsOpen {s} (sweeps p) v = record {
    let_through = v.let_through;
    kept = λ o. harmless.sweeps s.world (v.kept p);
  }
  Step-IsOpen {s} (receives_signal p) v = record { let_through = v.let_through; kept = v.kept }
  Step-IsOpen {s} (fails_to_listen p) v = record { let_through = v.let_through; kept = v.kept }
  Step-IsOpen {s} (takes_error p f) v = record {
    let_through = v.let_through;
    kept = λ o. absurd (ground arith);
  }
  Step-IsOpen {s} (takes_signal p q) v = record {
    let_through = v.let_through;
    kept = λ o. v.kept (rw p refl);
  }
  Step-IsOpen {s} (shuts_down p e) v = record {
    let_through = v.let_through;
    kept = λ o. absurd (ground arith);
  }
  Step-IsOpen {s} (runs_late p) v = record {
    let_through = v.let_through;
    kept = λ o. absurd (ground arith);
  }

  Reach-IsOpen : {s t : Process a.World} → Reach a h s t → IsOpen s → IsOpen t
  Reach-IsOpen here v = v
  Reach-IsOpen (next r st) v = Step-IsOpen st (Reach-IsOpen r v)

module _ {F W P C : Type 0} (p : Platform F W P C)
    (down : (o : ClientOptions P C) → IsUnreachable (p.dial o)) where
  -- A process that starts while Redis cannot be reached lets every request through for as long as that lasts:
  -- whatever the settings and the limiters, and in whatever order requests come and are answered, gauges
  -- are published, entries of the cache are swept and signals arrive, each answer on "/check" has the
  -- status 200. A process that was connected before, whose cache may hold blocks, is not covered.
  pub Reach-answered :
      (c : Settings) (b : forwardlimit.Config.Build.Built) (w : W)
      → let a = build_store p c in
        let h = handler_of p c b a in
        (t : Process a.World) → Reach a h (begin a h w) t → All (λ s. s ≡ pos 200) t.answered
  unfolding forwardlimit.Httpapi.new
  Reach-answered c b w t r =
      let a = build_store p c in
      let harmless = build_store-IsHarmless p down c in
      (Reach-IsOpen a harmless (handler_of p c b a) refl r
        (record { let_through = tt; kept = λ o. harmless.starts w })).let_through
