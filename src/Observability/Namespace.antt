-- ===== src/Observability/Namespace.antt =====
-- The namespace of the metrics, in internal/observability/observability.go.
use forwardlimit.Common.{ℕ, ◌≡◌, true, false, ◌||◌, [], ◌∷◌, if◌then◌else◌, All, arith}
use forwardlimit.Common.Text.{Text, codes, is_empty, trim_space}
use forwardlimit.Observability.{
  is_name_start, is_digit, keep_rune, sanitise_from, sanitise_namespace, resolve_namespace,
}

-- What Prometheus permits as the start of a metric's name: [a-zA-Z_:][a-zA-Z0-9_:]*
abbrev pub IsMetricName : Text → Type 0
IsMetricName [] = ⊥
IsMetricName (c ∷ s) =
    (is_name_start c ≡ true) × All (λ d. (is_name_start d || is_digit d) ≡ true) s

sanitise_from-All :
    (s : Text) → All (λ d. (is_name_start d || is_digit d) ≡ true) (sanitise_from false s)
unfolding sanitise_from
sanitise_from-All [] = tt
sanitise_from-All (c ∷ s) = (ground arith, sanitise_from-All s)

first_kept : (c : ℕ) → is_name_start (keep_rune true c) ≡ true
first_kept c = ground arith

sanitised :
    (s : Text)
    → IsMetricName
        (if is_empty (sanitise_from true s) then codes "forwardlimit" else sanitise_from true s)
unfolding sanitise_from
sanitised [] = ground arith
sanitised (c ∷ s) = (first_kept c, sanitise_from-All s)

-- Whatever the setting, the namespace is not empty and is a name that Prometheus permits.
pub resolve_namespace-IsMetricName : (ns : Text) → IsMetricName (resolve_namespace ns)
unfolding resolve_namespace sanitise_namespace
resolve_namespace-IsMetricName ns = sanitised (trim_space ns)
