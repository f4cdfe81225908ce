-- ===== src/Lib.antt =====
-- A model of forwardlimit, a rate limiting service for reverse proxies, and what holds of it.
--
-- A proxy forwards each request to "/check" (ForwardAuth) and lets it through exactly if the
-- answer is 2xx. The handler reads the forwarded request; the engine asks each limiter that
-- applies for a bucket and the store for a verdict on it; the first enforced block rejects. A
-- fault on the way lets the request through. The store is decorated: a breaker spares a store
-- that fails, and a cache answers for buckets that are known to be blocked.
--
-- The files, and the code that each is about:
--   Store               internal/store/store.go and noop.go: rules, keys, results, the interface
--   Store/Keys          Key.String and SanitizeBucket
--   Store/Breaker       internal/store/breaker/breaker.go: allow, record, and the body that Consume
--                       and Take share, as `guarded`; Machine is its specification; Invariant, Trips,
--                       Faults and Recovery are about runs of calls, Overlap about concurrent ones
--   Store/Blockcache    internal/store/blockcache/blockcache.go: Consume, lookup, remember, sweep;
--                       Steps lists its critical sections, Entries, Verdicts and Expiry are about
--                       what it holds, what it answers and for how long
--   Store/Window        the specification of a window with a block; Admission is about a run of calls
--   Store/Capacity      the specification of a token bucket; Rate is about a run of calls
--   Store/Redis         internal/store/redisstore/redisstore.go: Consume and the script that it runs;
--                       Tokens is Take and its script, Connect the set-up; Laws is what the commands
--                       of Redis do; Refines and Consume compare the one with Store/Window, Refill and
--                       Grants the other with Store/Capacity; Isolation is about calls for many
--                       buckets, Spending and Expiry about Take
--   Store/Fake          internal/store/storetest/fake.go; Refines, Consume and Take compare it with
--                       Store/Window, Store/Capacity and Store/Redis
--   Request             internal/limiter/request.go: Field, QueryValue, HeaderValue; Query is
--                       about QueryValue
--   Limiter             internal/limiter/limiter.go: limiters, verdicts, decisions; Scope is about
--                       Applies
--   Limiter/Engine      internal/limiter/engine.go: Evaluate is `evaluate`, one round of its loop
--                       `visit`, its switch `judge`; Rejection, Order, DryRun and FailOpen are about it
--   Keyer               internal/limiter/keyer/keyer.go; Subnet is IPSubnet; Hashed and Combined are
--                       about the combinators
--   Observability       internal/observability/observability.go: what is recorded; Collectors is
--                       NewMetrics, Registration and Namespace are about it
--   Httpapi             internal/httpapi/httpapi.go: the writer and the options; Forwarded, Reading
--                       and Check are the handler, Answers, Recovery and World are about it
--   Config              internal/config/file.go: the limiter file; Validation is Validate, Sources
--                       and Build are buildKeyer and File.Build of internal/config/build.go;
--                       Loading is LoadFile; Sound, Given, Complete, Names and Hashing are about
--                       them
--   Settings            internal/config/config.go: the settings of the environment; Loader is its
--                       loader, Checks are validate and Warnings, Load is Load, Usable is about it
--   Server              cmd/forwardlimit/main.go: Assembly is buildStore and publishStoreMetrics, Run
--                       is run, report and probeHealth; Process is serve, the loops and the end of
--                       main, as steps that requests, signals and timers choose, and its children
--                       are about them; Connected, Outage (on Harmless and Through), Preflight,
--                       Service (on Metering and Enforced), Alone and Apart are about the rest
--   Common              numbers, texts and maps that the others share
--   Tests               the theorems at concrete inputs
--
-- How state and effects are modelled. A store, a clock and all that they reach share a type of
-- worlds; an operation takes the world and returns the next one, so that the order of the
-- calls is part of what is stated. A decorator adds its fields to the world of the store it
-- decorates. A method runs under its mutex, or in critical sections that
-- Store/Blockcache/Steps and Store/Breaker/Overlap interleave. A panic is a value: of a
-- store's reply, of a keyer's result and of a handler's end. Logging and contexts are left
-- out: nothing reads the one, and the other only cancels calls.
--
-- Numbers. An int64 is an integer whose additions wrap, as `wrap` and `increment` say;
-- durations are nanoseconds; a time is the nanoseconds since Go's zero time, unbounded.
-- retryAfterSeconds and seconds go through float64; they are modelled by the exact quotient,
-- from which the float may differ only for durations beyond 100 days. All loops are over
-- lists, so that nothing needs fuel.
--
-- Texts are lists of bytes. Folding the case and trimming treat ASCII as Go does; Go also
-- folds and trims other letters and spaces of Unicode, and goes over a namespace by runes,
-- which the model does byte by byte.
--
-- Parameters, since their code is elsewhere: the environment, the parsers of strconv, time,
-- flag, url, YAML, JSON and certificates, os.Stat, os.ReadFile, HMAC-SHA256, net.ParseIP,
-- float64 (Common/Float, with the laws of exact integers where a theorem needs them), the
-- Redis client and its commands, the client library of Prometheus with the names that its
-- registry holds, the clock and the innermost store. What the commands of Redis do is stated
-- in Store/Redis/Laws, for a script during which no key expires; what the client library of
-- Prometheus does, in Observability/Laws. IPSubnet is a parameter of Config/Build, which
-- Server/Run instantiates. A map that is ranged over is a list in the order of the range.
--
-- Not modelled: what net/http does with connections, of which Server/Process keeps the
-- requests to "/check", each served in one step; how promhttp writes the metrics; and the
-- texts of errors and warnings beyond their kind. A body that fails in the same read as its
-- last byte within the limit counts as cut; the numbers of the window's script are exact,
-- where Lua's are doubles.
mod Common
pub mod Store
pub mod Request
pub mod Limiter
pub mod Keyer
pub mod Observability
pub mod Httpapi
pub mod Config
pub mod Settings
pub mod Server
mod Tests
