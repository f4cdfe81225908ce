-- ===== src/Server/Preflight.antt =====
-- What the flag `validate` of cmd/forwardlimit/main.go promises.
use forwardlimit.Common.{Bool, true, false}
use forwardlimit.Common.Text.{Text}
use forwardlimit.Settings.{Settings, Problem}
use forwardlimit.Settings.Load.{Loading}
use forwardlimit.Server.{Flags}
use forwardlimit.Server.Run.{Outcome, reported, serving}

abbrev pub flags_of : Text → Bool → Flags
flags_of path validate = record {
  config_path = path;
  show_version = false;
  healthcheck = false;
  validate = validate;
}

-- The configuration is reported to be valid; the server listens.
abbrev pub is_reported : {W : Type 0} → Outcome W → Bool
is_reported (reported r) = true
is_reported o = false

abbrev pub is_serving : {W : Type 0} → Outcome W → Bool
is_serving (serving a h) = true
is_serving o = false
