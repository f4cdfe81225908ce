-- ===== src/Request.antt =====
-- internal/limiter/request.go: the subject of a decision, and the values that keyers read from it.
-- The JSON decoder (`json.Decoder` with `UseNumber`) and `url.ParseQuery` are parameters. Parsing
-- once, lazily, returns what parsing at each use returns, since the body does not change.
pub mod Query
use forwardlimit.Common.{
  ℕ, Bool, true, ◌&&◌, ◌||◌, not, Option, none, some, List, [], ◌∷◌, leb, ◌==◌, if◌then◌else◌,
}
use forwardlimit.Common.Text.{
  Text, is_empty, codes, text_eq, equal_fold, trim_space, split, cut_byte, upper_byte, lower_byte,
  contains_byte,
}
use forwardlimit.Common.Assoc.{lookup}

pub record Request : Type 0 where
  pub method : Text
  pub path : Text
  pub header : List (Text × List Text)
  pub body : Text
  pub raw_query : Text

-- What a body decodes to. A `json.Number` keeps the digits as they were written.
mutual
  pub data Json : Type 0 where
    null : Json
    boolean : Bool → Json
    string : Text → Json
    number : Text → Json
    array : Elements → Json
    object : Members → Json

  pub data Elements : Type 0 where
    nil : Elements
    cons : Json → Elements → Elements

  pub data Members : Type 0 where
    end : Members
    member : Text → Json → Members → Members

-- `m[part]`
unfoldable pub find_member : Text → Members → Option Json
unfolding text_eq
find_member k end = none
find_member k (member j v ms) = if text_eq j k then some v else find_member k ms

-- One round of the loop of `Field`.
unfoldable pub descend : Text → Json → Option Json
unfolding find_member
descend part (object ms) = find_member part ms
descend part _ = none

abbrev and_then {ℓ κ} : {A : Type ℓ} {B : Type κ} → Option A → (A → Option B) → Option B
and_then none f = none
and_then (some a) f = f a

unfoldable pub walk : List Text → Json → Option Json
unfolding descend
walk [] v = some v
walk (part ∷ parts) v = and_then (descend part v) (walk parts)

-- The first result, if there is one: a loop that returns at the first hit.
abbrev pub or_else {ℓ} : {A : Type ℓ} → Option A → Option A → Option A
or_else none o = o
or_else (some a) o = some a

abbrev pub non_empty : Text → Option Text
non_empty s = if is_empty s then none else some s

-- The type switch at the end of `Field`.
abbrev pub scalar : Json → Option Text
scalar (string s) = non_empty s
scalar (number s) = non_empty s
scalar _ = none

module _ (decode : Text → Option Members) where
  -- `decode` is `none` on an error, and on `null`, which leaves the map nil.
  unfoldable pub parse : Request → Option Members
  parse r = if is_empty r.body then none else decode r.body

  unfoldable pub field : Request → Text → Option Text
  unfolding parse walk split
  field r name =
      if is_empty name
      then none
      else and_then (parse r) (λ obj. and_then (walk (split name b'.') (object obj)) scalar)

abbrev pub first_value : Option (List Text) → Text
first_value none = []
first_value (some []) = []
first_value (some (v ∷ vs)) = v

-- `url.Values.Get`
unfoldable pub values_get : List (Text × List Text) → Text → Text
unfolding lookup
values_get m k = first_value (lookup k m)

-- The scan for the name as it is written.
unfoldable pub scan_exact : List (Text × List Text) → List Text → Option Text
unfolding values_get trim_space
scan_exact m [] = none
scan_exact m (n ∷ names) =
    let v = trim_space (values_get m n) in if is_empty v then scan_exact m names else some v

-- The inner loop of the second scan, in the order in which the map is ranged over.
unfoldable pub scan_entries : List (Text × List Text) → Text → Option Text
unfolding equal_fold trim_space
scan_entries [] n = none
scan_entries ((k, []) ∷ m) n = scan_entries m n
scan_entries ((k, v ∷ vs) ∷ m) n =
    let t = trim_space v in if equal_fold k n && not (is_empty t) then some t else scan_entries m n

unfoldable pub scan_folded : List (Text × List Text) → List Text → Option Text
unfolding scan_entries
scan_folded m [] = none
scan_folded m (n ∷ names) = or_else (scan_entries m n) (scan_folded m names)

module _ (parse_query : Text → List (Text × List Text)) where
  unfoldable pub query_value : Request → List Text → Option Text
  unfolding scan_exact scan_folded
  query_value r names =
      if is_empty r.raw_query
      then none
      else (let m = parse_query r.raw_query in or_else (scan_exact m names) (scan_folded m names))

-- The bytes of a header field's name.
abbrev pub is_token_byte : ℕ → Bool
is_token_byte c =
    (leb b'a' c && leb c b'z')
    || (leb b'A' c && leb c b'Z')
    || (leb b'0' c && leb c b'9')
    || contains_byte c (codes "!#$%&'*+-.^_`|~")

-- `textproto.CanonicalMIMEHeaderKey`; `upper` starts true.
abbrev pub capitalise : Bool → Text → Text
capitalise upper [] = []
capitalise upper (c ∷ s) =
    let d = if upper then upper_byte c else lower_byte c in d ∷ capitalise (d == b'-') s

abbrev pub all_token : Text → Bool
all_token [] = true
all_token (c ∷ s) = is_token_byte c && all_token s

unfoldable pub canonical_key : Text → Text
unfolding contains_byte upper_byte lower_byte
canonical_key s = if all_token s then capitalise true s else s

-- `http.Header.Get`
unfoldable pub header_get : List (Text × List Text) → Text → Text
unfolding lookup canonical_key
header_get h name = first_value (lookup (canonical_key name) h)

abbrev leftmost : Text → Option (Text × Text) → Text
leftmost v none = v
leftmost v (some (before, after)) = trim_space before

-- One round of `HeaderValue`; `none` goes on to the next name.
unfoldable pub header_entry : Text → Option Text
unfolding trim_space cut_byte
header_entry raw =
    let v = trim_space raw in if is_empty v then none else non_empty (leftmost v (cut_byte b',' v))

unfoldable pub header_value : Request → List Text → Option Text
unfolding header_get header_entry
header_value r [] = none
header_value r (n ∷ names) = or_else (header_entry (header_get r.header n)) (header_value r names)
