-- ===== src/Config/Loading.antt =====
-- `LoadFile` of internal/config/build.go. `os.ReadFile` and the YAML decoder are parameters.
use forwardlimit.Common.{Bool, Option, none, some, List, [], ◌∷◌}
use forwardlimit.Common.Int.{ℤ}
use forwardlimit.Common.Text.{Text}
use forwardlimit.Config.{File}
use forwardlimit.Config.Validation.{Problem, validate}

pub data FileLoading : Type 0 where
  loaded : File → FileLoading
  unreadable malformed : FileLoading
  rejected : List Problem → FileLoading

-- With no problem, the file.
abbrev pub checked : File → List Problem → FileLoading
checked f [] = loaded f
checked f (p ∷ ps) = rejected (p ∷ ps)

unfoldable pub load_file :
    (Text → Option Text)
    → (Text → Option File)
    → (Text → Bool)
    → (Text → Option ℤ)
    → Text
    → FileLoading
unfolding validate
load_file read_file decode_yaml exists atoi path = elim (read_file path) [
  | none ↦ unreadable
  | some raw ↦ elim (decode_yaml raw) [
    | none ↦ malformed
    | some f ↦ checked f (validate exists atoi f)
  ]
]
