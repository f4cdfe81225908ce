-- ===== src/Tests/Settings.antt =====
-- The settings of an environment that sets nothing.
use forwardlimit.Common.{false, Option, none, [], ◌≡◌, refl}
use forwardlimit.Common.Text.{Text}
use forwardlimit.Settings.{Settings}
use forwardlimit.Settings.Checks.{
  validate_service, concat, validate_store, validate_decorators, warnings,
}
use forwardlimit.Settings.Load.{loaded, read, load}
use forwardlimit.Settings.Usable.{IsUsable, load-IsUsable}

abbrev pub unset : Text → Text
unset key = []

-- No value is set, so that no parser is called, and no file is looked for.
abbrev pub never : {A : Type 0} → Text → Option A
never v = none

abbrev pub defaults : Settings
defaults = (read unset never never never (λ path. false)).0

pub defaults-load : load unset never never never (λ path. false) ≡ loaded defaults
unfolding load read validate_service concat validate_store validate_decorators
defaults-load = refl

-- They limit, verify the server's certificate, and hold no block for longer than five minutes.
defaults_unwarned : warnings defaults ≡ []
unfolding warnings read
defaults_unwarned = refl

load-IsUsable_example : IsUsable (λ path. false) defaults
load-IsUsable_example = load-IsUsable unset never never never (λ path. false) defaults defaults-load
