-- ===== src/Server/Process.antt =====
-- The process of cmd/forwardlimit/main.go once it listens: `serve`, the loop of publishStoreMetrics, the
-- sweeper of the cache, and the end of `run` and `main`. A request is served in one step; the
-- goroutines, the clients and the system choose which step is next.
pub mod Orderly
pub mod Through
use forwardlimit.Common.{ℕ, suc, Bool, true, false, List, [], ◌∷◌, ◌++◌, ◌≡◌}
use forwardlimit.Common.Int.{ℤ, pos}
use forwardlimit.Observability.{Metrics, Gauges}
use forwardlimit.Httpapi.{HttpRequest, Handler, final_status}
use forwardlimit.Httpapi.Check.{serve_check}
use forwardlimit.Server.Assembly.{Assembled, publish}
use forwardlimit.Server.Outage.{fresh}

-- What `serve` returns: nil, the error of the listener, or that of `Shutdown`.
pub data Ending : Type 0 where
  stopped listen_error shutdown_error : Ending

-- `main`
abbrev pub exit_code : Ending → ℤ
exit_code stopped = pos 0
exit_code listen_error = pos 1
exit_code shutdown_error = pos 1

-- `serve` waits in its select, or for `Shutdown`; or `run` has returned.
pub data Phase : Type 0 where
  waiting draining : Phase
  over : Ending → Phase

abbrev pub is_over : Phase → Bool
is_over waiting = false
is_over draining = false
is_over (over e) = true

-- `signalled` is that the context is done by a signal, `failed` that `errCh` holds an error; the requests
-- that are being handled, the statuses that went out, how many requests were accepted, and how often
-- the store was closed.
pub record Process (W : Type 0) : Type 0 where
  pub phase : Phase
  pub signalled : Bool
  pub failed : Bool
  pub publishing : Bool
  pub handling : List HttpRequest
  pub accepted : ℕ
  pub answered : List ℤ
  pub closes : ℕ
  pub metrics : Metrics
  pub gauges : Gauges
  pub world : W

module _ {W : Type 0} (a : Assembled W) (h : Handler a.World) where
  -- As `run` comes to `serve`.
  abbrev pub begin : W → Process a.World
  begin w = record {
    phase = waiting;
    signalled = false;
    failed = false;
    publishing = true;
    handling = [];
    accepted = 0;
    answered = [];
    closes = 0;
    metrics = [];
    gauges = record { block_cache_hits = pos 0; store_breaker_open = pos 0 };
    world = a.start w;
  }

  -- The deferred calls of `run`.
  abbrev pub finish : Ending → Process a.World → Process a.World
  finish e s = record s { phase = over e; closes = suc s.closes; world = (a.store.close s.world).1 }

  -- A round of the loop of publishStoreMetrics, or the publication before it.
  abbrev pub tick : Process a.World → Process a.World
  tick s = record s { gauges = publish a s.world s.gauges }

  abbrev pub answer : HttpRequest → List HttpRequest → Process a.World → Process a.World
  answer r others s =
      let t = serve_check h r (fresh s.metrics s.world) in
      record s {
        handling = others;
        answered = final_status t.writer ∷ s.answered;
        metrics = t.metrics;
        world = t.world;
      }

  pub data Step (s : Process a.World) : Process a.World → Type 0 where
    -- A request to "/check", as long as the listener accepts.
    accepts :
        (r : HttpRequest)
        → s.phase ≡ waiting
        → s.failed ≡ false
        → Step s (record s { handling = r ∷ s.handling; accepted = suc s.accepted })
    answers :
        (r : HttpRequest) (before after : List HttpRequest)
        → is_over s.phase ≡ false
        → s.handling ≡ before ++ (r ∷ after)
        → Step s (answer r (before ++ after) s)
    -- The first publication, or a tick; the select may prefer it to the end of the context.
    publishes : is_over s.phase ≡ false → s.publishing ≡ true → Step s (tick s)
    stops_publishing :
        is_over s.phase ≡ false → s.signalled ≡ true → Step s (record s { publishing = false })
    sweeps : is_over s.phase ≡ false → Step s (record s { world = a.sweep s.world })
    -- SIGINT or SIGTERM.
    receives_signal : is_over s.phase ≡ false → Step s (record s { signalled = true })
    -- `ListenAndServe` returns an error that is not ErrServerClosed.
    fails_to_listen : s.phase ≡ waiting → Step s (record s { failed = true })
    -- The select takes either case that is ready.
    takes_error : s.phase ≡ waiting → s.failed ≡ true → Step s (finish listen_error s)
    takes_signal : s.phase ≡ waiting → s.signalled ≡ true → Step s (record s { phase = draining })
    -- `Shutdown` returns nil once nothing is being handled, or else an error at its deadline.
    shuts_down : s.phase ≡ draining → s.handling ≡ [] → Step s (finish stopped s)
    runs_late : s.phase ≡ draining → Step s (finish shutdown_error s)

  pub data Reach (s : Process a.World) : Process a.World → Type 0 where
    here : Reach s s
    next : {t u : Process a.World} → Reach s t → Step t u → Reach s u
