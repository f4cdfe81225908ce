-- ===== src/Observability/Collectors.antt =====
-- NewMetrics of internal/observability/observability.go. The client library of Prometheus is a
-- parameter: its collectors, and a registry that holds the names of what was registered.
use forwardlimit.Common.{ℕ, List, [], ◌∷◌, ◌++◌, Option, none, some}
use forwardlimit.Common.Text.{Text, codes}
use forwardlimit.Observability.{resolve_namespace}

-- What `NewMetrics` calls. A constructor takes the namespace and the name of the collector, then the
-- names of its labels or the bounds of its buckets, in tenths of a millisecond. `none` is a panic.
-- `names` are the metrics that a collector describes, `usable` tells that the description has no error.
pub record Prometheus : Type 1 where
  pub Collector : Type 0
  pub Registry : Type 0
  pub new_counter_vec : Text → Text → List Text → Collector
  pub new_counter : Text → Text → Collector
  pub new_gauge : Text → Text → Collector
  pub new_histogram : Text → Text → List ℕ → Option Collector
  pub go_collector : Collector
  pub process_collector : Collector
  pub names : Collector → List Text
  pub usable : Collector → Type 0
  pub with_prefix : Text → Collector → Collector
  pub new_registry : Registry
  pub registered : Registry → List Text
  pub must_register : Collector → Registry → Option Registry

abbrev pub ◌>>=◌ : {A B : Type 0} → Option A → (A → Option B) → Option B
none >>= k = none
some a >>= k = k a

infixl 1 ◌>>=◌
abbrev pub buckets : List ℕ
buckets = 5 ∷ 10 ∷ 25 ∷ 50 ∷ 100 ∷ 250 ∷ 500 ∷ 1_000 ∷ 2_500 ∷ 5_000 ∷ 10_000 ∷ []

module _ (p : Prometheus) where
  -- `Metrics`
  pub record Metrics : Type 0 where
    pub registry : p.Registry
    pub namespace : Text
    pub decisions : p.Collector
    pub store_errors : p.Collector
    pub cache_hits : p.Collector
    pub breaker_open : p.Collector
    pub duration : p.Collector

  -- `MustRegister` on several collectors, one after the other.
  unfoldable pub register_all : List p.Collector → p.Registry → Option p.Registry
  register_all [] r = some r
  register_all (c ∷ cs) r = p.must_register c r >>= register_all cs

  -- `NewMetrics`
  unfoldable pub new_metrics : Text → Option Metrics
  new_metrics setting =
      let namespace = resolve_namespace setting in
      let decisions =
        p.new_counter_vec namespace (codes "decisions_total")
          (codes "limiter" ∷ codes "decision" ∷ []) in
      let store_errors = p.new_counter namespace (codes "store_errors_total") in
      let cache_hits = p.new_gauge namespace (codes "block_cache_hits") in
      let breaker_open = p.new_gauge namespace (codes "store_breaker_open") in
      let prefixed = p.with_prefix (namespace ++ codes "_") in
      do
        duration ← p.new_histogram namespace (codes "check_duration_seconds") buckets
        own ←
            register_all (decisions ∷ store_errors ∷ cache_hits ∷ breaker_open ∷ duration ∷ [])
              p.new_registry
        registry ← register_all (prefixed p.go_collector ∷ prefixed p.process_collector ∷ []) own
        some (record {
          registry = registry;
          namespace = namespace;
          decisions = decisions;
          store_errors = store_errors;
          cache_hits = cache_hits;
          breaker_open = breaker_open;
          duration = duration;
        })
