-- ===== src/Tests/Server.antt =====
-- A process on a machine whose environment sets nothing, with a file of one limiter, and whose Redis
-- cannot be reached.
use forwardlimit.Common.{
  ◌+◌, ℕ, suc, ◌≡◌, refl, true, false, none, some, List, [], ◌∷◌, length, All, if◌then◌else◌, arith,
}
use forwardlimit.Common.Int.{pos}
use forwardlimit.Common.Text.{Text, codes, text_eq}
use forwardlimit.Store.{err, other_error}
use forwardlimit.Store.Redis.{Commands}
use forwardlimit.Store.Redis.Tokens.{BucketCommands}
use forwardlimit.Store.Redis.Connect.{Client, Connection, made, new}
use forwardlimit.Settings.Load.{read}
use forwardlimit.Server.{Platform, Flags}
use forwardlimit.Server.Assembly.{config_of, chain, build_store}
use forwardlimit.Server.Run.{run, handler_of}
use forwardlimit.Config.Build.{Built, default_response}
use forwardlimit.Server.Connected.{AreFilesGood, build_store-chain}
use forwardlimit.Server.Assembly.{Assembled}
use forwardlimit.Httpapi.{Handler}
use forwardlimit.Server.Process.{
  Process, stopped, draining, begin, answer, finish, accepts, answers, receives_signal,
  takes_signal, shuts_down, Reach, here, next,
}
use forwardlimit.Server.Process.Orderly.{Tells, exit_graceful}
use forwardlimit.Server.Process.Through.{Reach-answered}
use forwardlimit.Server.Preflight.{flags_of}
use forwardlimit.Tests.{login, ticking}
use forwardlimit.Tests.Limits.{post_check}
use forwardlimit.Tests.Buckets.{Rounded, whole}
use forwardlimit.Tests.Configs.{one_limiter}
use forwardlimit.Tests.Settings.{unset, never, defaults, defaults-load}

-- No command is ever called.
abbrev no_commands : Commands ℕ
no_commands = record {
  ttl = λ k w. (pos 0, w);
  incr = λ k w. (pos 0, w);
  expire = λ k s w. w;
  set_ex = λ k v s w. w;
  del = λ k w. w;
}

abbrev no_bucket_commands : BucketCommands Rounded ℕ
no_bucket_commands = record {
  time = λ w. ((pos 0, pos 0), w);
  hmget = λ k n t w. ((none, none), w);
  hset = λ k n a t b w. w;
  pexpire = λ k ms w. w;
}

-- Each attempt takes a nanosecond, and fails.
abbrev cut_off : Client ℕ
cut_off = record {
  run = λ script w. (err (other_error (codes "connection refused")), suc w);
  ping = λ w. (some (other_error (codes "connection refused")), suc w);
  close = λ w. (none, w);
}

abbrev limits : Text
limits = codes "limits.yaml"

-- Any argument stands for the flag `validate`.
abbrev some_flags : List Text → Flags
some_flags [] = flags_of limits false
some_flags (a ∷ argv) = flags_of limits true

abbrev machine : Platform Rounded ℕ Text Text
machine = record {
  getenv = unset;
  parse_bool = never;
  parse_int = never;
  parse_duration = never;
  atoi = never;
  parse_flags = λ argv d. some (some_flags argv);
  exists = λ path. false;
  read_file = λ path. if text_eq path limits then some [] else none;
  decode_yaml = λ raw. some one_limiter;
  decode_json = never;
  parse_query = λ q. [];
  mac = λ k s. s;
  parse_ip = never;
  ip_string = λ ip. ip;
  append_certs = never;
  load_pair = λ cert key. none;
  float = whole;
  redis = no_commands;
  buckets = no_bucket_commands;
  dial = λ o. cut_off;
  clock = ticking;
  split_host_port = never;
  join_host_port = λ host port. host;
  get = never;
}

machine_good : AreFilesGood machine defaults
unfolding read text_eq
machine_good = record {
  readable = λ e. absurd (ground arith);
  pem = λ t e. absurd (ground arith);
  pair = λ e. absurd (ground arith);
}

build_store-chain_example :
    (conn : Connection Text Text) × (new machine.read_file machine.append_certs machine.load_pair
        (config_of defaults.redis)
      ≡ made conn)
    × (build_store machine defaults ≡ chain machine defaults conn)
unfolding read
build_store-chain_example = build_store-chain machine defaults defaults-load refl machine_good

abbrev one_built : Built
one_built = record {
  limiters = login ∷ [];
  responses = [];
  default = default_response;
  warnings = [];
}

abbrev shop : Assembled ℕ
shop = build_store machine defaults

abbrev desk : Handler shop.World
desk = handler_of machine defaults one_built shop

-- A request comes in, the gauges are published, it is answered, and the process is told to stop.
abbrev opened : Process shop.World
opened = begin shop desk 7

abbrev asked : Process shop.World
asked = record opened { handling = post_check ∷ []; accepted = 1 }

abbrev served : Process shop.World
served = answer shop desk post_check [] asked

abbrev told : Process shop.World
told = record served { signalled = true }

abbrev closing : Process shop.World
closing = record told { phase = draining }

abbrev a_day : Reach shop desk opened (finish shop desk stopped closing)
a_day =
    next
      (next
        (next (next (next here (accepts post_check refl refl)) (answers post_check [] [] refl refl))
          (receives_signal refl))
        (takes_signal refl refl))
      (shuts_down refl refl)

exit_graceful_example :
    let t = finish shop desk stopped closing in
    (t.closes ≡ 1)
    × (length t.answered + length t.handling ≡ t.accepted)
    × Tells shop desk stopped t
exit_graceful_example =
    exit_graceful shop desk 7 (finish shop desk stopped closing) stopped a_day refl

Reach-answered_example : All (λ c. c ≡ pos 200) (finish shop desk stopped closing).answered
Reach-answered_example =
    Reach-answered machine (λ o script w. tt) defaults one_built 7
      (finish shop desk stopped closing) a_day
