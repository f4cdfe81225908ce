-- ===== src/Server.antt =====
-- cmd/forwardlimit/main.go: the process. The flag parser, the file system, the network and the
-- libraries are the fields of `Platform`.
pub mod Assembly
pub mod Run
pub mod Connected
pub mod Harmless
pub mod Through
pub mod Outage
pub mod Process
pub mod Preflight
pub mod Apart
pub mod Metering
pub mod Enforced
pub mod Service
pub mod Alone
use forwardlimit.Common.{Bool, Option, List}
use forwardlimit.Common.Int.{ℤ}
use forwardlimit.Common.Float.{Float}
use forwardlimit.Common.Text.{Text}
use forwardlimit.Store.{Clock}
use forwardlimit.Store.Redis.{Commands}
use forwardlimit.Store.Redis.Tokens.{BucketCommands}
use forwardlimit.Store.Redis.Connect.{ClientOptions, Client}
use forwardlimit.Request.{Members}
use forwardlimit.Keyer.Subnet.{Ip}
use forwardlimit.Config.{File}

-- `flags`
pub record Flags : Type 0 where
  pub config_path : Text
  pub show_version : Bool
  pub healthcheck : Bool
  pub validate : Bool

-- `F` is float64, `W` the world, `P` a pool of certificates and `C` a certificate with its key.
pub record Platform (F W P C : Type 0) : Type 0 where
  pub getenv : Text → Text
  pub parse_bool : Text → Option Bool
  pub parse_int : Text → Option ℤ
  pub parse_duration : Text → Option ℤ
  pub atoi : Text → Option ℤ
  -- `flag.FlagSet.Parse`, at the default of the flag `config`.
  pub parse_flags : List Text → Text → Option Flags
  pub exists : Text → Bool
  pub read_file : Text → Option Text
  pub decode_yaml : Text → Option File
  pub decode_json : Text → Option Members
  pub parse_query : Text → List (Text × List Text)
  pub mac : Text → Text → Text
  -- `net.ParseIP` and `IP.String`.
  pub parse_ip : Text → Option Ip
  pub ip_string : Ip → Text
  pub append_certs : Text → Option P
  pub load_pair : Text → Text → Option C
  pub float : Float F
  pub redis : Commands W
  pub buckets : BucketCommands F W
  pub dial : ClientOptions P C → Client W
  pub clock : Clock W
  pub split_host_port : Text → Option (Text × Text)
  pub join_host_port : Text → Text → Text
  -- A GET of a URL: the status of the answer, or an error.
  pub get : Text → Option ℤ
