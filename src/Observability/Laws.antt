-- ===== src/Observability/Laws.antt =====
-- What the client library of Prometheus promises, in the words that NewMetrics of
-- internal/observability/observability.go relies on.
use forwardlimit.Common.{ℕ, ◌≡◌, ◌<◌, true, some, List, [], ◌∷◌, ◌++◌, map, All}
use forwardlimit.Common.Text.{Text, codes, has_prefix, Lacks}
use forwardlimit.Observability.Namespace.{IsMetricName}
use forwardlimit.Observability.Collectors.{Prometheus}
use forwardlimit.Observability.Fresh.{Fresh}

-- The name of a label is that of a metric without a colon.
abbrev pub IsLabel : Text → Type 0
IsLabel l = IsMetricName l × Lacks b':' l

abbrev pub Increasing : List ℕ → Type 0
Increasing [] = Unit
Increasing (b ∷ []) = Unit
Increasing (b ∷ c ∷ bs) = (b < c) × Increasing (c ∷ bs)

-- The name of a metric follows its namespace and a `_`.
abbrev pub full_name : Text → Text → Text
full_name namespace name = (namespace ++ codes "_") ++ name

abbrev pub Describes : (p : Prometheus) → p.Collector → List Text → Type 0
Describes p c ns = (p.names c ≡ ns) × p.usable c

-- The documented behaviour of the client library.
pub record IsPrometheus (p : Prometheus) : Type 0 where
  -- A collector describes the metric that it is made for, if the names are permitted.
  pub counter_vec :
      (namespace name : Text) (labels : List Text)
      → IsMetricName (full_name namespace name)
      → All IsLabel labels
      → Describes p (p.new_counter_vec namespace name labels) (full_name namespace name ∷ [])
  pub counter :
      (namespace name : Text)
      → IsMetricName (full_name namespace name)
      → Describes p (p.new_counter namespace name) (full_name namespace name ∷ [])
  pub gauge :
      (namespace name : Text)
      → IsMetricName (full_name namespace name)
      → Describes p (p.new_gauge namespace name) (full_name namespace name ∷ [])
  -- A histogram panics unless the bounds of its buckets increase.
  pub histogram :
      (namespace name : Text) (bounds : List ℕ)
      → IsMetricName (full_name namespace name)
      → Increasing bounds
      → (c : p.Collector) × (p.new_histogram namespace name bounds ≡ some c)
        × Describes p c (full_name namespace name ∷ [])
  -- The metrics of the runtime and of the process have a prefix of their own, and no two share a name.
  pub go_usable : p.usable p.go_collector
  pub go_fresh : Fresh [] (p.names p.go_collector)
  pub go_prefix : All (λ n. has_prefix n (codes "go_") ≡ true) (p.names p.go_collector)
  pub process_usable : p.usable p.process_collector
  pub process_fresh : Fresh [] (p.names p.process_collector)
  pub process_prefix :
      All (λ n. has_prefix n (codes "process_") ≡ true) (p.names p.process_collector)
  -- A prefix is put before each name.
  pub prefixed :
      (prefix : Text) (c : p.Collector)
      → IsMetricName prefix
      → p.usable c
      → Describes p (p.with_prefix prefix c) (map (λ n. prefix ++ n) (p.names c))
  pub starts_empty : p.registered p.new_registry ≡ []
  -- A collector is registered unless its description has an error or a name of it is taken.
  pub registers :
      (c : p.Collector) (r : p.Registry)
      → p.usable c
      → Fresh (p.registered r) (p.names c)
      → (s : p.Registry) × (p.must_register c r ≡ some s)
        × (p.registered s ≡ p.registered r ++ p.names c)
