-- ===== src/Common/Text/Cut.antt =====
-- strings.IndexByte with the slices taken round it, strings.Contains, strings.Split, strings.Join.
use Prim.Native.Nat.{ℕ}
use mathlib.Core.Path.{◌≡◌, refl}
use mathlib.Core.Logic.{◌≢◌}
use mathlib.Core.Bool.{Bool, false, ◌||◌}
use mathlib.Core.Option.{Option, none, some}
use mathlib.Core.List.{List, [], ◌∷◌, ◌++◌}
use native.Mathlib.Omega.{arith}
use forwardlimit.Common.Lists.{All}
use forwardlimit.Common.Tests.{◌==◌, if◌then◌else◌}
use forwardlimit.Common.Text.Bytes.{Text, codes}

abbrev widen : ℕ → Option (Text × Text) → Option (Text × Text)
widen c none = none
widen c (some (before, after)) = some (c ∷ before, after)

-- `s[:i]` and `s[i+1:]` at the first `sep`; `none` where `IndexByte` is negative.
unfoldable pub cut_byte : ℕ → Text → Option (Text × Text)
cut_byte sep [] = none
cut_byte sep (c ∷ s) = let rest = cut_byte sep s in if c == sep then some ([], s) else widen c rest

unfoldable pub contains_byte : ℕ → Text → Bool
contains_byte b [] = false
contains_byte b (c ∷ s) = c == b || contains_byte b s

abbrev extend_first : ℕ → List Text → List Text
extend_first c [] = (c ∷ []) ∷ []
extend_first c (p ∷ ps) = (c ∷ p) ∷ ps

unfoldable pub split : Text → ℕ → List Text
split [] sep = [] ∷ []
split (c ∷ s) sep = let rest = split s sep in if c == sep then [] ∷ rest else extend_first c rest

unfoldable pub join : List Text → Text → Text
join [] sep = []
join (p ∷ []) sep = p
join (p ∷ q ∷ ps) sep = p ++ (sep ++ join (q ∷ ps) sep)

abbrev pub Lacks : ℕ → Text → Type 0
Lacks b = All (λ c. c ≢ b)

-- The cut is at the first separator: none stands before it.
pub cut_byte→append :
    (sep : ℕ) (s before after : Text)
    → cut_byte sep s ≡ some (before, after)
    → (s ≡ before ++ (sep ∷ after)) × Lacks sep before
unfolding cut_byte
cut_byte→append sep [] before after h = cc
cut_byte→append sep (c ∷ s) [] after h = (ground arith, tt)
cut_byte→append sep (c ∷ s) (d ∷ before) after h =
    let ih = cut_byte→append sep s before after in (ground (arith, ih), ground (arith, ih))

pub cut_byte-append :
    (sep : ℕ) (before after : Text)
    → Lacks sep before
    → cut_byte sep (before ++ (sep ∷ after)) ≡ some (before, after)
unfolding cut_byte
cut_byte-append sep [] after h = ground arith
cut_byte-append sep (c ∷ before) after h = ground (arith, cut_byte-append sep before after)

pub cut_byte-Lacks : (sep : ℕ) (s : Text) → Lacks sep s → cut_byte sep s ≡ none
unfolding cut_byte
cut_byte-Lacks sep [] h = refl
cut_byte-Lacks sep (c ∷ s) h = ground (arith, cut_byte-Lacks sep s)

pub cut_byte→Lacks : (sep : ℕ) (s : Text) → cut_byte sep s ≡ none → Lacks sep s
unfolding cut_byte
cut_byte→Lacks sep [] h = tt
cut_byte→Lacks sep (c ∷ s) h = ground (arith, cut_byte→Lacks sep s)

split_path : split (codes "a.b..c") b'.' ≡ codes "a" ∷ codes "b" ∷ [] ∷ codes "c" ∷ []
unfolding split
split_path = refl
