-- ===== src/Server/Assembly.antt =====
-- `buildStore` and `publishStoreMetrics` of cmd/forwardlimit/main.go.
use forwardlimit.Common.{not, Option, none, some, if◌then◌else◌}
use forwardlimit.Common.Int.{pos, ltb_ℤ}
use forwardlimit.Store.{Store, Clock, noop}
use forwardlimit.Store.Breaker.{Breaker, breaker_store, is_open}
use forwardlimit.Store.Blockcache.{Blockcache, sweep_round, cache_store}
use forwardlimit.Store.Redis.Connect.{Config, Connection, made, refused, new, ping, redis_store}
use forwardlimit.Observability.{Gauges, set_block_cache_hits, set_breaker_open}
use forwardlimit.Settings.{Settings, RedisSettings, BreakerSettings, CacheSettings}
use forwardlimit.Server.{Platform}

-- A store with its world, which is that of the process and the fields of the decorators; where the
-- fields of the two decorators are, if they are there; and the world once the store is built.
pub record Assembled (W : Type 0) : Type 1 where
  pub World : Type 0
  pub store : Store World
  pub clock : Clock World
  pub cache_of : Option (World → Blockcache)
  pub breaker_of : Option (World → Breaker)
  -- A tick of the goroutine that the cache started.
  pub sweep : World → World
  pub start : W → World

-- The clock beside the fields of a decorator.
abbrev pub beside : {S W : Type 0} → Clock W → Clock (S × W)
beside clock = record { now = λ s. let (t, w) = clock.now s.1 in (t, (s.0, w)) }

abbrev pub lifted : {S W B : Type 0} → Option (W → B) → Option (S × W → B)
lifted none = none
lifted (some get) = some (λ s. get s.1)

module _ {W : Type 0} where
  abbrev pub plain : Clock W → Store W → Assembled W
  plain clock st = record {
    World = W;
    store = st;
    clock = clock;
    cache_of = none;
    breaker_of = none;
    sweep = λ w. w;
    start = λ w. w;
  }

  abbrev pub with_breaker : BreakerSettings → Assembled W → Assembled W
  with_breaker o a =
      if ltb_ℤ (pos 0) o.threshold
      then record {
        World = Breaker × a.World;
        store = breaker_store a.store a.clock;
        clock = beside a.clock;
        cache_of = lifted a.cache_of;
        breaker_of = some (λ s. s.0);
        sweep = λ s. (s.0, a.sweep s.1);
        start = λ w. (forwardlimit.Store.Breaker.new o.threshold o.cooldown, a.start w);
      }
      else a

  abbrev pub with_cache : CacheSettings → Assembled W → Assembled W
  with_cache o a =
      if o.enabled
      then record {
        World = Blockcache × a.World;
        store = cache_store a.store a.clock;
        clock = beside a.clock;
        cache_of = some (λ s. s.0);
        breaker_of = lifted a.breaker_of;
        sweep = sweep_round a.clock;
        start = λ w. (forwardlimit.Store.Blockcache.new o.max_entries o.max_ttl (pos 0), a.start w);
      }
      else a

abbrev pub config_of : RedisSettings → Config
config_of r = record {
  addrs = r.addrs;
  mode = r.mode;
  tls_enabled = r.tls_enabled;
  tls_skip_verify = r.tls_skip_verify;
  tls_ca_file = r.tls_ca_file;
  tls_cert_file = r.tls_cert_file;
  tls_key_file = r.tls_key_file;
  pool_size = r.pool_size;
  max_retries = r.max_retries;
  dial_timeout = r.dial_timeout;
  read_timeout = r.read_timeout;
  write_timeout = r.write_timeout;
  key_prefix = r.key_prefix;
}

module _ {F W P C : Type 0} (p : Platform F W P C) where
  -- A store on Redis, which is pinged once.
  abbrev pub connected : Connection P C → Assembled W
  connected conn = record (plain p.clock (redis_store p.float p.redis p.buckets p.dial conn)) {
    start = λ w. (ping p.float p.redis p.buckets p.dial conn w).1;
  }

  abbrev pub chain : Settings → Connection P C → Assembled W
  chain c conn = with_cache c.block_cache (with_breaker c.breaker (connected conn))

  unfoldable pub build_store : Settings → Assembled W
  unfolding new
  build_store c =
      if not c.redis.enabled
      then plain p.clock noop
      else elim (new p.read_file p.append_certs p.load_pair (config_of c.redis)) [
        | refused e ↦ plain p.clock noop
        | made conn ↦ chain c conn
      ]

module _ {W : Type 0} (a : Assembled W) where
  abbrev hits_shown : a.World → Gauges → Gauges
  hits_shown w g = elim a.cache_of [ none ↦ g | some cache ↦ set_block_cache_hits (cache w).hits g ]

  -- `publish`, which runs at the start and on every tick.
  unfoldable pub publish : a.World → Gauges → Gauges
  publish w g = elim a.breaker_of [
    | none ↦ hits_shown w g
    | some breaker ↦ set_breaker_open (is_open (breaker w)) (hits_shown w g)
  ]
