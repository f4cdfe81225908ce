-- ===== src/Tests/Limits.antt =====
-- The server with one limiter of five requests a minute, its defaults, and a server of Redis that is
-- reached.
use forwardlimit.Limiter.{Limiter}
use forwardlimit.Limiter.{key}
use forwardlimit.Store.{Key, sanitize_bucket}
use forwardlimit.Common.{map, List, ◌≡◌, refl, none, [], ◌∷◌, arith, false}
use forwardlimit.Common.Int.{pos}
use forwardlimit.Common.Text.{Text, codes, text_eq}
use forwardlimit.Common.Assoc.{lookup}
use forwardlimit.Request.{header_get}
use forwardlimit.Limiter.{applies}
use forwardlimit.Store.Redis.Tokens.{BucketCommands}
use forwardlimit.Store.Redis.Connect.{Client, ClientOptions, single, Connection, new_with_client}
use forwardlimit.Store.Redis.Consume.{direct}
use forwardlimit.Settings.Load.{read}
use forwardlimit.Config.Build.{Built, default_response}
use forwardlimit.Httpapi.Forwarded.{original_path}
use forwardlimit.Httpapi.{HttpRequest, Handler, stream}
use forwardlimit.Httpapi.Reading.{read_body}
use forwardlimit.Httpapi.Check.{subject}
use forwardlimit.Server.{Platform}
use forwardlimit.Server.Assembly.{chain}
use forwardlimit.Server.Run.{handler_of}
use forwardlimit.Server.Outage.{statuses}
use forwardlimit.Server.Enforced.{Counts, answers, key_of}
use forwardlimit.Server.Service.{Reaches, Fresh, statuses-chain}
use forwardlimit.Tests.{login}
use forwardlimit.Tests.Buckets.{Rounded, whole}
use forwardlimit.Tests.Settings.{unset, never, defaults}
use forwardlimit.Tests.Redis.{Table, server, server_laws, nobody, nobody-AreTidy, nobody-starts}

-- A request in the scope of the limiter.
abbrev pub post_check : HttpRequest
post_check = record {
  method = codes "GET";
  url_path = codes "/check";
  url_raw_query = [];
  header =
      (codes "X-Forwarded-Uri", codes "/login" ∷ [])
      ∷ (codes "X-Forwarded-Method", codes "POST" ∷ [])
      ∷ [];
  body = stream [] false;
}

abbrev elsewhere : HttpRequest
elsewhere = record post_check {
  header =
      (codes "X-Forwarded-Uri", codes "/api/items" ∷ [])
      ∷ (codes "X-Forwarded-Method", codes "POST" ∷ [])
      ∷ [];
}

-- It limits each path on its own.
abbrev by_path : Limiter
by_path = record login { keyer = λ r. key r.path }

abbrev no_bucket_commands : BucketCommands Rounded Table
no_bucket_commands = record {
  time = λ w. ((pos 0, pos 0), w);
  hmget = λ k n t w. ((none, none), w);
  hset = λ k n a t b w. w;
  pexpire = λ k ms w. w;
}

abbrev client : Client Table
client = record { run = direct; ping = λ w. (none, w); close = λ w. (none, w) }

-- Its clock stands still.
abbrev reached : Platform Rounded Table Text Text
reached = record {
  getenv = unset;
  parse_bool = never;
  parse_int = never;
  parse_duration = never;
  atoi = never;
  parse_flags = λ argv d. none;
  exists = λ path. false;
  read_file = never;
  decode_yaml = never;
  decode_json = never;
  parse_query = λ q. [];
  mac = λ k s. s;
  parse_ip = never;
  ip_string = λ ip. ip;
  append_certs = never;
  load_pair = λ cert key. none;
  float = whole;
  redis = server;
  buckets = no_bucket_commands;
  dial = λ o. client;
  clock = record { now = λ w. (5, w) };
  split_host_port = never;
  join_host_port = λ host port. host;
  get = never;
}

reached-Reaches : Reaches reached server_laws
reached-Reaches = record { runs = λ o. refl; same_value = λ j w. refl; same_left = λ j w. refl }

abbrev options : ClientOptions Text Text
options = record {
  topology = single (codes "redis:6379");
  tls = none;
  pool_size = pos 10;
  max_retries = pos 1;
  dial_timeout = pos 5_000_000_000;
  read_timeout = pos 3_000_000_000;
  write_timeout = pos 3_000_000_000;
}

abbrev connection : Connection Text Text
connection = new_with_client options (codes "rl:")

abbrev built : Built
built = record {
  limiters = by_path ∷ [];
  responses = [];
  default = default_response;
  warnings = [];
}

abbrev limited : Handler (chain reached defaults connection).World
limited = handler_of reached defaults built (chain reached defaults connection)

post_check-Counts :
    Counts by_path
      (subject limited post_check (read_body limited.max_body (stream [] false)).0)
      (codes "/login")
unfolding applies subject original_path header_get read forwardlimit.Httpapi.new
post_check-Counts = record {
  in_scope = refl;
  keyed = refl;
  enforcing = refl;
  windowed = refl;
  valid = refl;
}

elsewhere-Counts :
    Counts by_path
      (subject limited elsewhere (read_body limited.max_body (stream [] false)).0)
      (codes "/api/items")
unfolding applies subject original_path header_get read forwardlimit.Httpapi.new
elsewhere-Counts = record {
  in_scope = refl;
  keyed = refl;
  enforcing = refl;
  windowed = refl;
  valid = refl;
}

nobody-Fresh : (k : Key) → Fresh reached server_laws reached-Reaches connection k nobody
nobody-Fresh k = record { counting_none = nobody-starts k; tidy = nobody-AreTidy k }

abbrev mixed : List (HttpRequest × Text)
mixed =
    (post_check, codes "/login")
    ∷ (elsewhere, codes "/api/items")
    ∷ (post_check, codes "/login")
    ∷ (post_check, codes "/login")
    ∷ (post_check, codes "/login")
    ∷ (post_check, codes "/login")
    ∷ (post_check, codes "/login")
    ∷ (elsewhere, codes "/api/items")
    ∷ []

-- The sixth request for "/login" is rejected, and those for "/api/items" are not.
answers-mixed :
    answers 5 default_response (λ x. 0) (map (λ (r : HttpRequest × Text). r.1) mixed)
    ≡ pos 200 ∷ pos 200 ∷ pos 200 ∷ pos 200 ∷ pos 200 ∷ pos 200 ∷ pos 429 ∷ pos 200 ∷ []
unfolding sanitize_bucket text_eq
answers-mixed = refl

statuses-chain_example :
    statuses limited
      (map (λ (r : HttpRequest × Text). r.0) mixed)
      []
      ((chain reached defaults connection).start nobody)
    ≡ answers 5 default_response (λ x. 0) (map (λ (r : HttpRequest × Text). r.1) mixed)
unfolding lookup read forwardlimit.Httpapi.new
statuses-chain_example =
    statuses-chain reached server_laws reached-Reaches defaults connection built by_path
      (λ x. Unit {0}) mixed 5 nobody refl refl refl (omega arith)
      (λ x plays. nobody-Fresh (key_of by_path x)) (omega arith)
      (
        (post_check-Counts, tt),
        (
          (elsewhere-Counts, tt),
          (
            (post_check-Counts, tt),
            (
              (post_check-Counts, tt),
              (
                (post_check-Counts, tt),
                ((post_check-Counts, tt), ((post_check-Counts, tt), ((elsewhere-Counts, tt), tt))),
              ),
            ),
          ),
        ),
      )
