-- ===== src/Observability.antt =====
-- internal/observability/observability.go. The counters and the histogram of the Prometheus client
-- are seen as the list of what was recorded, oldest first; a label value is its text.
pub mod Namespace
pub mod Collectors
pub mod Fresh
pub mod Laws
pub mod Registration
use forwardlimit.Common.{
  ℕ, Bool, true, false, ◌&&◌, ◌||◌, List, [], ◌∷◌, ◌++◌, if◌then◌else◌, leb, ◌==◌, Option, none,
  some,
}
use forwardlimit.Common.Int.{ℤ, pos}
use forwardlimit.Common.Text.{Text, codes, is_empty, trim_space, to_lower, text_eq}

pub data Event : Type 0 where
  decision : Text → Text → Event
  store_error observed : Event

abbrev pub Metrics : Type 0
Metrics = List Event

-- `RecordDecision`: no limiter is recorded as "none".
abbrev pub record_decision : Text → Text → Metrics → Metrics
record_decision name outcome m =
    m ++ (decision (if is_empty name then codes "none" else name) outcome ∷ [])

abbrev pub record_store_error : Metrics → Metrics
record_store_error m = m ++ (store_error ∷ [])

abbrev pub observe_check : Metrics → Metrics
observe_check m = m ++ (observed ∷ [])

-- The two gauges, which keep the number that was set last.
pub record Gauges : Type 0 where
  pub block_cache_hits : ℤ
  pub store_breaker_open : ℤ

-- `SetBlockCacheHits`
abbrev pub set_block_cache_hits : ℤ → Gauges → Gauges
set_block_cache_hits n g = record g { block_cache_hits = n }

-- `SetBreakerOpen`
abbrev pub set_breaker_open : Bool → Gauges → Gauges
set_breaker_open b g = record g { store_breaker_open = if b then pos 1 else pos 0 }

pub data Level : Type 0 where
  level_debug level_info level_warn level_error : Level

pub data Format : Type 0 where
  json text : Format

-- The two switches of `NewLogger`; `none` is an error.
unfoldable pub parse_level : Text → Option Level
unfolding trim_space to_lower text_eq
parse_level s =
    let l = to_lower (trim_space s) in
    if text_eq l (codes "debug")
    then some level_debug
    else if text_eq l [] || text_eq l (codes "info")
    then some level_info
    else if text_eq l (codes "warn") || text_eq l (codes "warning")
    then some level_warn
    else if text_eq l (codes "error")
    then some level_error
    else none

unfoldable pub parse_format : Text → Option Format
unfolding trim_space to_lower text_eq
parse_format s =
    let l = to_lower (trim_space s) in
    if text_eq l [] || text_eq l (codes "json")
    then some json
    else if text_eq l (codes "text")
    then some text
    else none

abbrev pub is_name_start : ℕ → Bool
is_name_start c = (leb b'a' c && leb c b'z') || (leb b'A' c && leb c b'Z') || c == b'_' || c == b':'

abbrev pub is_digit : ℕ → Bool
is_digit c = leb b'0' c && leb c b'9'

abbrev pub keep_rune : Bool → ℕ → ℕ
keep_rune first c =
    if is_name_start c then c else if is_digit c then (if first then b'_' else c) else b'_'

unfoldable pub sanitise_from : Bool → Text → Text
sanitise_from first [] = []
sanitise_from first (c ∷ s) = keep_rune first c ∷ sanitise_from false s

unfoldable pub sanitise_namespace : Text → Text
unfolding sanitise_from trim_space
sanitise_namespace ns = sanitise_from true (trim_space ns)

-- The namespace that `NewMetrics` settles on.
unfoldable pub resolve_namespace : Text → Text
unfolding sanitise_namespace
resolve_namespace ns =
    let n = sanitise_namespace ns in if is_empty n then codes "forwardlimit" else n
