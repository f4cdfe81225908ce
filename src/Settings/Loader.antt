-- ===== src/Settings/Loader.antt =====
-- The `loader` of internal/config/config.go: each method yields the value and adds to the errors.
use forwardlimit.Common.{Bool, ◌||◌, Option, none, some, List, [], ◌∷◌, ◌++◌, if◌then◌else◌}
use forwardlimit.Common.Int.{ℤ}
use forwardlimit.Common.Text.{Text, is_empty, trim_space, split, cut_suffix}
use forwardlimit.Common.Assoc.{is_some}
use forwardlimit.Settings.{Problem, Fault, not_boolean, not_integer, not_duration}

-- The texts that are not blank, trimmed: the loop of `list`.
unfoldable pub non_blank : List Text → List Text
unfolding trim_space
non_blank [] = []
non_blank (p ∷ ps) =
    let rest = non_blank ps in let v = trim_space p in if is_empty v then rest else v ∷ rest

-- `normalisePrefix`
unfoldable pub normalise_prefix : Text → Text
unfolding cut_suffix
normalise_prefix p =
    if is_empty p || is_some (cut_suffix p (b':' ∷ [])) then p else p ++ (b':' ∷ [])

-- What a parser makes of a value that is set; on an error the default stands.
abbrev parsed {ℓ} : {A : Type ℓ} → Text → Fault → A → Option A → A × List Problem
parsed key fault def none = (def, (key, fault) ∷ [])
parsed key fault def (some a) = (a, [])

module _ (getenv : Text → Text) where
  -- `raw`; a setting is set if its value is not blank.
  abbrev pub raw : Text → Text
  raw key = trim_space (getenv key)

  unfoldable pub str : Text → Text → Text
  str key def = let v = raw key in if is_empty v then def else v

  unfoldable pub boolean : (Text → Option Bool) → Text → Bool → Bool × List Problem
  boolean parse_bool key def =
      let v = raw key in if is_empty v then (def, []) else parsed key not_boolean def (parse_bool v)

  -- `int64`, and `integer`, since an int has 64 bits.
  unfoldable pub integer : (Text → Option ℤ) → Text → ℤ → ℤ × List Problem
  integer parse_int key def =
      let v = raw key in if is_empty v then (def, []) else parsed key not_integer def (parse_int v)

  unfoldable pub dur : (Text → Option ℤ) → Text → ℤ → ℤ × List Problem
  dur parse_duration key def =
      let v = raw key in
      if is_empty v then (def, []) else parsed key not_duration def (parse_duration v)

  unfoldable pub list : Text → List Text → List Text
  unfolding non_blank split
  list key def = let v = raw key in if is_empty v then def else non_blank (split v b',')
