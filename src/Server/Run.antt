-- ===== src/Server/Run.antt =====
-- `run`, `report` and `probeHealth` of cmd/forwardlimit/main.go, up to the point where the process
-- listens; the log is left out.
use forwardlimit.Common.{
  Bool, true, ◌&&◌, ◌||◌, not, Option, none, some, List, [], ◌∷◌, ◌++◌, if◌then◌else◌, map, ◌⊎◌,
  inl, inr,
}
use forwardlimit.Common.Int.{ℤ, pos, leb_ℤ}
use forwardlimit.Common.Text.{Text, codes, is_empty, text_eq}
use forwardlimit.Common.Assoc.{is_some}
use forwardlimit.Keyer.Subnet.{ip_subnet}
use forwardlimit.Limiter.{Limiter}
use forwardlimit.Httpapi.{Handler}
use forwardlimit.Observability.{parse_level, parse_format}
use forwardlimit.Config.Loading.{FileLoading, loaded, unreadable, malformed, rejected, load_file}
use forwardlimit.Config.Build.{Built, Building, built, failed, crashed, build, names, dry_run_names}
use forwardlimit.Settings.{Settings, Problem}
use forwardlimit.Settings.Checks.{warnings}
use forwardlimit.Settings.Load.{Loading, invalid, load}
use forwardlimit.Server.{Platform, Flags}
use forwardlimit.Server.Assembly.{Assembled, build_store}

-- `strings.Join(names, ", ")`
unfoldable pub comma_joined : List Text → Text
comma_joined [] = []
comma_joined (n ∷ []) = n
comma_joined (n ∷ m ∷ ns) = n ++ (b',' ∷ b' ' ∷ comma_joined (m ∷ ns))

-- A warning of the settings, or one of the file.
abbrev pub Warning : Type 0
Warning = forwardlimit.Settings.Checks.Warning ⊎ forwardlimit.Config.Build.Warning

-- `append(cfg.Warnings(), built.Warnings...)`
abbrev pub all_warnings : Settings → Built → List Warning
all_warnings c b = map inl (warnings c) ++ map inr b.warnings

-- The lines on standard output, and the warnings on standard error.
pub record Report : Type 0 where
  pub lines : List Text
  pub warned : List Warning

abbrev pub active_line : List Limiter → Text → Text
active_line [] joined = codes "active:  none"
active_line (l ∷ ls) joined = codes "active:  " ++ joined

abbrev pub dry_run_lines : List Text → List Text
dry_run_lines [] = []
dry_run_lines (n ∷ ns) = (codes "dry run: " ++ comma_joined (n ∷ ns)) ∷ []

unfoldable pub report : Settings → Built → Report
unfolding names dry_run_names comma_joined warnings
report c b = record {
  lines =
      (codes "config:  " ++ c.config_path)
      ∷ codes "valid:   yes"
      ∷ active_line b.limiters (comma_joined (names b))
      ∷ dry_run_lines (dry_run_names b.limiters);
  warned = all_warnings c b;
}

-- How a probe ends.
pub data Health : Type 0 where
  healthy : Health
  unparsable unreachable : Health
  answered : ℤ → Health

-- A wildcard host becomes 127.0.0.1.
abbrev pub probed_host : Text → Text
probed_host host =
    if is_empty host || (text_eq host (codes "0.0.0.0") || text_eq host (codes "::"))
    then codes "127.0.0.1"
    else host

abbrev pub health_of : Option ℤ → Health
health_of none = unreachable
health_of (some status) =
    if leb_ℤ status (pos 200) && leb_ℤ (pos 200) status then healthy else answered status

-- What `run` comes to: an error, one of the three things that a flag asks for, or a server that
-- listens, with its handler.
pub data Outcome (W : Type 0) : Type 1 where
  bad_settings : List Problem → Outcome W
  bad_flags : Outcome W
  version_printed : Outcome W
  probed : Health → Outcome W
  bad_file : FileLoading → Outcome W
  bad_limiters : Outcome W
  reported : Report → Outcome W
  bad_logger : Outcome W
  serving : (a : Assembled W) → Handler a.World → Outcome W
  -- A nil pointer is followed.
  killed : Outcome W

module _ {F W P C : Type 0} (p : Platform F W P C) where
  unfoldable pub probe_health : Text → Health
  unfolding text_eq
  probe_health addr = elim (p.split_host_port addr) [
    | none ↦ unparsable
    | some (host, port) ↦
        health_of (
          p.get (codes "http://" ++ (p.join_host_port (probed_host host) port ++ codes "/healthz")))
  ]

  -- `NewLogger` knows the level and the format.
  abbrev pub is_logger : Settings → Bool
  is_logger c = is_some (parse_level c.log_level) && is_some (parse_format c.log_format)

  abbrev pub handler_of : Settings → Built → (a : Assembled W) → Handler a.World
  handler_of c b a = forwardlimit.Httpapi.new (record {
    limiters = b.limiters;
    store = a.store;
    has_metrics = true;
    max_body = c.max_body_bytes;
    response = b.default;
    responses = b.responses;
  })

  -- The rest of `run` once the limiters are built: the report, or the server.
  unfoldable pub start : Settings → Bool → Built → Outcome W
  unfolding report build_store
  start c validate b =
      if validate
      then reported (report c b)
      else if not (is_logger c)
      then bad_logger
      else serving (build_store p c) (handler_of c b (build_store p c))

  abbrev pub after_build : Settings → Bool → Building → Outcome W
  after_build c validate (built b) = start c validate b
  after_build c validate failed = bad_limiters
  after_build c validate crashed = killed

  abbrev pub after_file : Settings → Bool → FileLoading → Outcome W
  after_file c validate (loaded f) = after_build c validate (
      build p.read_file p.atoi (ip_subnet p.parse_ip p.ip_string) p.decode_json p.parse_query p.mac
        c.hash_secret f)
  after_file c validate unreadable = bad_file unreadable
  after_file c validate malformed = bad_file malformed
  after_file c validate (rejected ps) = bad_file (rejected ps)

  -- From the file on, at the path that the flags settled on.
  unfoldable pub launch : Settings → Bool → Outcome W
  unfolding start
  launch c validate =
      after_file c validate (load_file p.read_file p.decode_yaml p.exists p.atoi c.config_path)

  -- After the flags.
  abbrev pub obey : Settings → Flags → Outcome W
  obey c f =
      if f.show_version
      then version_printed
      else if f.healthcheck
      then probed (probe_health c.listen_addr)
      else launch (record c { config_path = f.config_path }) f.validate

  abbrev pub after_flags : Settings → Option Flags → Outcome W
  after_flags c none = bad_flags
  after_flags c (some f) = obey c f

  abbrev pub after_settings : List Text → Loading → Outcome W
  after_settings argv (invalid ps) = bad_settings ps
  after_settings argv (forwardlimit.Settings.Load.loaded c) =
      after_flags c (p.parse_flags argv c.config_path)

  unfoldable pub run : List Text → Outcome W
  unfolding launch probe_health
  run argv = after_settings argv (load p.getenv p.parse_bool p.parse_int p.parse_duration p.exists)
