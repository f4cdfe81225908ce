-- ===== src/Server/Outage.antt =====
-- The server of cmd/forwardlimit/main.go while Redis cannot be reached.
use forwardlimit.Common.{◌≡◌, refl, false, List, [], ◌∷◌, map, ◌∙◌, ap, inl, inr, Bool-cases, arith}
use forwardlimit.Common.Int.{ℤ, pos}
use forwardlimit.Common.Text.{Text}
use forwardlimit.Store.{
  Store, Clock, Key, key_string, Rule, rule_valid, Bucket, bucket_valid, Result, TakeResult, Reply,
  ok, err, panicked, noop,
}
use forwardlimit.Common.Float.{Float}
use forwardlimit.Store.Redis.{Commands, from_script}
use forwardlimit.Store.Redis.Tokens.{BucketCommands, take, from_spend}
use forwardlimit.Store.Redis.Connect.{Connection, Client, Built, made, refused, new, ClientOptions}
use forwardlimit.Limiter.Engine.FailOpen.{Fails}
use forwardlimit.Settings.{Settings}
use forwardlimit.Server.{Platform}
use forwardlimit.Server.Assembly.{Assembled, plain, connected, chain, config_of, build_store}
use forwardlimit.Limiter.{rejected}
use forwardlimit.Limiter.Engine.{evaluate}
use forwardlimit.Observability.{Metrics}
use forwardlimit.Httpapi.{HttpRequest, Handler, Serving, new_writer, final_status}
use forwardlimit.Httpapi.Reading.{read_body}
use forwardlimit.Httpapi.Check.{serve_check, subject}
use forwardlimit.Httpapi.Answers.{decision_on, serve_check-status}
use forwardlimit.Httpapi.World.{serve_check-world}
use forwardlimit.Server.Run.{handler_of}
use forwardlimit.Server.Through.{evaluate-passes}
use forwardlimit.Server.Harmless.{
  Passes, PassesTake, IsHarmless, noop-IsHarmless, with_breaker-IsHarmless, with_cache-IsHarmless,
}

-- A client that never gets an answer.
abbrev pub IsUnreachable : {W : Type 0} → Client W → Type 0
IsUnreachable {W} client = (script : W → List ℤ × W) (w : W) → Fails (client.run script w).0

from_script-Passes : (raw : Reply (List ℤ)) → Fails raw → Passes (from_script raw)
from_script-Passes (ok raw) h = absurd h
from_script-Passes (err e) h = tt
from_script-Passes panicked h = tt

from_spend-PassesTake : (raw : Reply (List ℤ)) → Fails raw → PassesTake (from_spend raw)
from_spend-PassesTake (ok raw) h = absurd h
from_spend-PassesTake (err e) h = tt
from_spend-PassesTake panicked h = tt

module _ {F W : Type 0} (float : Float F) (redis : Commands W) (buckets : BucketCommands F W)
    (client : Client W) (down : IsUnreachable client) (prefix : Text) (k : Key) where
  consume-Fails :
      (r : Rule) (w : W) → Passes (forwardlimit.Store.Redis.consume redis client.run prefix k r w).0
  unfolding forwardlimit.Store.Redis.consume
  consume-Fails r w = elim (Bool-cases (rule_valid r)) [
    | inl y ↦ rw y (from_script-Passes (client.run _ w).0 (down _ w))
    | inr n ↦ rw n tt
  ]

  take-Fails : (b : Bucket) (w : W) → PassesTake (take float buckets client.run prefix k b w).0
  unfolding take
  take-Fails b w = elim (Bool-cases (bucket_valid b)) [
    | inl y ↦ rw y (from_spend-PassesTake (client.run _ w).0 (down _ w))
    | inr n ↦ rw n tt
  ]

-- A client to which nothing was sent.
abbrev pub fresh : {W : Type 0} → Metrics → W → Serving W
fresh m w = record { writer = new_writer; wrote = false; metrics = m; world = w }

-- The statuses that clients get whose requests are served one after the other.
abbrev pub statuses : {W : Type 0} → Handler W → List HttpRequest → Metrics → W → List ℤ
statuses h [] m w = []
statuses h (r ∷ rs) m w =
    let s = serve_check h r (fresh m w) in final_status s.writer ∷ statuses h rs s.metrics s.world

module _ {W : Type 0} (a : Assembled W) (harmless : IsHarmless a) (h : Handler a.World)
    (same : h.store ≡ a.store) where
  decided :
      (r : HttpRequest) (s : a.World)
      → harmless.Keeps s
      → let d = evaluate h.store h.limiters (subject h r (read_body h.max_body r.body).0) s in
        (d.0.blocked ≡ false) × harmless.Keeps d.1
  unfolding subject
  decided r s keeps =
      rw same (
        evaluate-passes a harmless h.limiters (subject h r (read_body h.max_body r.body).0) s keeps)

  pub check-200 :
      (r : HttpRequest) (m : Metrics) (w : a.World)
      → harmless.Keeps w
      → let s = serve_check h r (fresh m w) in
        (final_status s.writer ≡ pos 200) × harmless.Keeps s.world
  check-200 r m w keeps =
      let (open_, kept) = decided r w keeps in
      let passes : rejected (decision_on h r w) ≡ false = rw open_ refl in
      (
        serve_check-status h r (fresh m w) refl (λ y. absurd (ground arith)) ∙ rw passes refl,
        rw (serve_check-world h r (fresh m w)) kept,
      )

  statuses-200 :
      (rs : List HttpRequest) (m : Metrics) (w : a.World)
      → harmless.Keeps w
      → statuses h rs m w ≡ map (λ r. pos 200) rs
  statuses-200 [] m w keeps = refl
  statuses-200 (r ∷ rs) m w keeps =
      let s = serve_check h r (fresh m w) in
      let (first, kept) = check-200 r m w keeps in
      ap (λ c. c ∷ statuses h rs s.metrics s.world) first
      ∙ ap (λ cs. pos 200 ∷ cs) (statuses-200 rs s.metrics s.world kept)

module _ {F W P C : Type 0} (p : Platform F W P C)
    (down : (o : ClientOptions P C) → IsUnreachable (p.dial o)) where
  connected-IsHarmless : (conn : Connection P C) → IsHarmless (connected p conn)
  connected-IsHarmless conn = record {
    Keeps = λ w. Unit;
    starts = λ w. tt;
    sweeps = λ w h. tt;
    ticks = λ w h. tt;
    consumes = λ k r w h. (
      consume-Fails p.float p.redis p.buckets (p.dial conn.client) (down conn.client) conn.prefix k
          r w,
      tt,
    );
    takes = λ k b w h. (
      take-Fails p.float p.redis p.buckets (p.dial conn.client) (down conn.client) conn.prefix k b
          w,
      tt,
    );
  }

  pub build_store-IsHarmless : (c : Settings) → IsHarmless (build_store p c)
  unfolding build_store
  build_store-IsHarmless c = elim (Bool-cases c.redis.enabled) [
    | inr off ↦ rw off (noop-IsHarmless p.clock)
    | inl on ↦ rw on (assembled (new p.read_file p.append_certs p.load_pair (config_of c.redis)))
  ]
    where
      assembled :
          (r : Built (Connection P C))
          → IsHarmless (elim r as (λ x. Assembled W) [
            | refused e ↦ plain p.clock noop
            | made conn ↦ chain p c conn
          ])
      assembled (refused e) = noop-IsHarmless p.clock
      assembled (made conn) =
          with_cache-IsHarmless c.block_cache _
            (with_breaker-IsHarmless c.breaker _ (connected-IsHarmless conn))

  -- While Redis cannot be reached, every request is let through: whatever the settings and the limiters,
  -- each of the requests that the server gets, one after the other from its start, is answered with 200.
  statuses-handler_of :
      (c : Settings) (b : forwardlimit.Config.Build.Built) (rs : List HttpRequest) (w : W)
      → let a = build_store p c in
        statuses (handler_of p c b a) rs [] (a.start w) ≡ map (λ r. pos 200) rs
  unfolding forwardlimit.Httpapi.new
  statuses-handler_of c b rs w =
      let h = build_store-IsHarmless c in
      statuses-200 (build_store p c) h (handler_of p c b (build_store p c)) refl rs [] _
        (h.starts w)
