-- ===== src/Tests.antt =====
-- The theorems at concrete inputs: a server with one limiter, a store that counts, and a clock that
-- ticks.
mod Service
mod Scopes
mod Breakers
mod Caches
mod Keys
mod Networks
mod Configs
mod Requests
mod Metrics
mod Redis
mod Buckets
mod Fakes
mod Settings
mod Limits
mod Server
use forwardlimit.Common.{ℕ, suc, Bool, true, false, none, some, List, [], ◌∷◌, ltb}
use forwardlimit.Common.Int.{pos}
use forwardlimit.Common.Text.{codes}
use forwardlimit.Request.{Request}
use forwardlimit.Store.{
  Store, Clock, Rule, Bucket, Reply, ok, err, panicked, other_error, Result, TakeResult,
}
use forwardlimit.Limiter.{Limiter, key}

-- Each reading of the clock is one nanosecond later.
abbrev pub ticking : Clock ℕ
ticking = record { now = λ w. (w, suc w) }

abbrev pub no_bucket : Bucket
no_bucket = record { rate = pos 0; burst = pos 0 }

abbrev pub five_a_minute : Rule
five_a_minute = record { limit = pos 5; window = pos 60_000_000_000; block = pos 90_000_000_000 }

-- Counts every call, and blocks from the sixth on.
abbrev pub counting : Store ℕ
counting = record {
  consume = λ k r w.
      (ok (record { blocked = ltb 5 w; count = pos w; retry_after = pos 90_000_000_000 }), suc w);
  take =
      λ k b w. (ok (record { allowed = ltb w 5; remaining = pos 0; retry_after = pos 1 }), suc w);
  close = λ w. (none, w);
}

-- Fails on one algorithm, and panics on the other.
abbrev pub broken : Store ℕ
broken = record {
  consume = λ k r w. (err (other_error []), suc w);
  take = λ k b w. (panicked, suc w);
  close = λ w. (none, w);
}

abbrev pub limiter_of : Bool → Limiter
limiter_of dry = record {
  name = codes "login";
  rule = five_a_minute;
  bucket = no_bucket;
  keyer = λ r. key (codes "client");
  paths = codes "/login" ∷ codes "/api/*" ∷ [];
  methods = [];
  dry_run = dry;
  advise_retry_after = true;
}

abbrev pub login : Limiter
login = limiter_of false

-- Unused rules: never consulted.
abbrev pub disabled_limiter : Limiter
disabled_limiter = record login { rule = record { limit = pos 0; window = pos 0; block = pos 0 } }

abbrev pub post_login : Request
post_login = record {
  method = codes "POST";
  path = codes "/login";
  header = [];
  body = [];
  raw_query = [];
}
