-- ===== src/Server/Service.antt =====
-- The server of cmd/forwardlimit/main.go with one limiter, and Redis within reach.
use forwardlimit.Common.{
  ℕ, List, All, map, ◌∙◌, arith, ◌-◌, ◌<◌, ◌≡◌, refl, ap, true, [], ◌∷◌, inl, inr, Bool-cases,
}
use forwardlimit.Common.Int.{pos, ltb_ℤ, two_63}
use forwardlimit.Common.Text.{Text}
use forwardlimit.Store.{Key, Rule, rule_valid}
use forwardlimit.Store.Window.{counting}
use forwardlimit.Store.Window.Admission.{phase_after}
use forwardlimit.Store.Redis.{consume}
use forwardlimit.Store.Redis.Laws.{Laws}
use forwardlimit.Store.Redis.Connect.{Connection, ClientOptions}
use forwardlimit.Store.Redis.Consume.{direct, phase_of, IsTidyFor}
use forwardlimit.Limiter.{Limiter}
use forwardlimit.Httpapi.{Response, HttpRequest, Handler}
use forwardlimit.Httpapi.Reading.{read_body}
use forwardlimit.Common.Assoc.{lookup}
use forwardlimit.Httpapi.Check.{subject, or_default}
use forwardlimit.Httpapi.Answers.{IsFinal}
use forwardlimit.Config.Build.{Built}
use forwardlimit.Settings.{Settings, BreakerSettings, CacheSettings}
use forwardlimit.Server.{Platform}
use forwardlimit.Server.Assembly.{Assembled, connected, with_breaker, with_cache, chain}
use forwardlimit.Server.Run.{handler_of}
use forwardlimit.Server.Outage.{statuses}
use forwardlimit.Server.Metering.{Meters, redis-Meters, breaker-Meters}
use forwardlimit.Server.Metering.Cached.{cache-Meters}
use forwardlimit.Server.Enforced.{Counts, key_of, answers, statuses-answers}

-- The client reaches the server of Redis, and reading the clock of the process does not change its keys.
pub record Reaches {F W P C : Type 0} (p : Platform F W P C) (laws : Laws p.redis) : Type 0 where
  pub runs : (o : ClientOptions P C) → (p.dial o).run ≡ direct
  pub same_value : (j : Text) (w : W) → laws.value j (p.clock.now w).1 ≡ laws.value j w
  pub same_left : (j : Text) (w : W) → laws.left j (p.clock.now w).1 ≡ laws.left j w

module _ {W : Type 0} (name : Text) (rule : Rule) (limit : ℕ) (InPlay : Text → Type 0)
    (Fresh : W → Type 0) where
  -- The store admits the first `limit` calls for each bucket in play from its start, in a world that is fresh.
  abbrev Ready : Assembled W → Type 1
  Ready a =
      (ms : Meters a.store a.clock name rule limit InPlay) × ((w : W)
        → Fresh w
        → ms.At (λ x. 0) (a.start w))

  with_breaker-Ready : (o : BreakerSettings) (a : Assembled W) → Ready a → Ready (with_breaker o a)
  unfolding forwardlimit.Store.Breaker.new
  with_breaker-Ready o a (ms, starts) = elim (Bool-cases (ltb_ℤ (pos 0) o.threshold)) [
    | inr n ↦ rw n (ms, starts)
    | inl y ↦
        let (guarded, enters) = breaker-Meters a.clock name rule limit InPlay a.store ms in
        rw y (
          guarded,
          λ w f.
              enters (λ x. 0) (forwardlimit.Store.Breaker.new o.threshold o.cooldown) (a.start w)
                refl (starts w f),
        )
  ]

  with_cache-Ready : (o : CacheSettings) (a : Assembled W) → Ready a → Ready (with_cache o a)
  unfolding forwardlimit.Store.Blockcache.new
  with_cache-Ready o a (ms, starts) = elim (Bool-cases o.enabled) [
    | inr n ↦ rw n (ms, starts)
    | inl y ↦
        let (cached, enters) = cache-Meters a.clock name rule limit InPlay a.store ms in
        rw y (
          cached,
          λ w f.
              enters (λ x. 0) (forwardlimit.Store.Blockcache.new o.max_entries o.max_ttl (pos 0))
                (a.start w) refl (λ x z e. refl) (starts w f),
        )
  ]

module _ {F W P C : Type 0} (p : Platform F W P C) (laws : Laws p.redis)
    (reaches : Reaches p laws) where
  -- The bucket has no count and no block once Redis was pinged.
  pub record Fresh (conn : Connection P C) (k : Key) (w : W) : Type 0 where
    pub counting_none :
        phase_of p.redis laws conn.prefix k ((connected p conn).start w) ≡ counting (pos 0)
    pub tidy : IsTidyFor p.redis laws conn.prefix k ((connected p conn).start w)

  connected-Ready :
      (conn : Connection P C) (name : Text) (rule : Rule) (limit : ℕ) (InPlay : Text → Type 0)
      → rule_valid rule ≡ true
      → rule.limit ≡ pos limit
      → limit < two_63 - 1
      → Ready name rule limit InPlay
          (λ w. (x : Text) → InPlay x → Fresh conn (record { limiter = name; bucket = x }) w)
          (connected p conn)
  connected-Ready conn name rule limit InPlay valid limit_is fits =
      let no_calls : counting (pos 0) ≡ phase_after limit 0 = ground arith in
      let (ms, enters) =
        redis-Meters p.clock name rule limit InPlay p.redis laws conn.prefix valid limit_is fits
          (connected p conn).store
          (ap (λ run. consume p.redis run conn.prefix) (reaches.runs conn.client))
          reaches.same_value reaches.same_left in
      (
        ms,
        λ w f.
            enters (λ x. 0) ((connected p conn).start w)
              (λ x plays. ((f x plays).counting_none ∙ no_calls, (f x plays).tidy)),
      )

  -- The requests with their buckets: the limiter counts each for its bucket, which is in play.
  abbrev pub AreCounted :
      {V : Type 0} → Handler V → Limiter → (Text → Type 0) → List (HttpRequest × Text) → Type 0
  AreCounted h l InPlay = All (λ (r : HttpRequest × Text).
      Counts l (subject h r.0 (read_body h.max_body r.0.body).0) r.1 × InPlay r.1)

  -- The program does what it is for: of the requests that come one after the other from the start of the
  -- server, whoever sends them, each bucket's first `limit` are answered with 200, and its later ones with the
  -- response that is set for the limiter, whether the store has its breaker and its cache or not. The limiter
  -- is the only one, in force, with a window and a limit below the largest int64, and counts each request;
  -- Redis is reached, the buckets in play are fresh, and no key expires meanwhile; and the response has a final
  -- status of three digits. Buckets that differ in braces alone are one.
  pub statuses-chain :
      (c : Settings) (conn : Connection P C) (b : Built) (l : Limiter) (InPlay : Text → Type 0)
      (rs : List (HttpRequest × Text)) (limit : ℕ) (w : W)
      → b.limiters ≡ l ∷ []
      → rule_valid l.rule ≡ true
      → l.rule.limit ≡ pos limit
      → limit < two_63 - 1
      → ((x : Text) → InPlay x → Fresh conn (key_of l x) w)
      → let h = handler_of p c b (chain p c conn) in
        IsFinal h (or_default (lookup l.name h.responses) h.response)
        → AreCounted h l InPlay rs
        → statuses h (map (λ (r : HttpRequest × Text). r.0) rs) [] ((chain p c conn).start w)
          ≡ answers limit
              (or_default (lookup l.name h.responses) h.response)
              (λ x. 0)
              (map (λ (r : HttpRequest × Text). r.1) rs)
  unfolding forwardlimit.Httpapi.new
  statuses-chain c conn b l InPlay rs limit w alone valid limit_is fits fresh final counted =
      let a = chain p c conn in
      let F = λ (v : W). (x : Text) → InPlay x → Fresh conn (key_of l x) v in
      let (ms, starts) =
        with_cache-Ready l.name l.rule limit InPlay F c.block_cache
          (with_breaker c.breaker (connected p conn))
          (with_breaker-Ready l.name l.rule limit InPlay F c.breaker (connected p conn)
            (connected-Ready conn l.name l.rule limit InPlay valid limit_is fits)) in
      statuses-answers a.clock (handler_of p c b a) l limit InPlay alone ms rs (λ x. 0) []
        (a.start w) final counted (starts w fresh)
