-- ===== src/Observability/Registration.antt =====
-- What NewMetrics of internal/observability/observability.go registers, for a client library of
-- Prometheus that does what its documentation says.
use mathlib.Core.List.{map-append}
use forwardlimit.Common.{
  ℕ, ◌≡◌, refl, ap, sym, subst, ◌∙◌, true, false, ◌||◌, some, List, [], ◌∷◌, ◌++◌, map,
  append_assoc, append-nil, All, All-append, All-map, arith,
}
use forwardlimit.Common.Text.{Text, codes, has_prefix}
use forwardlimit.Observability.{is_name_start, is_digit, resolve_namespace}
use forwardlimit.Observability.Namespace.{IsMetricName, resolve_namespace-IsMetricName}
use forwardlimit.Observability.Collectors.{Prometheus, Metrics, register_all, new_metrics, buckets}
use forwardlimit.Observability.Laws.{Describes, IsPrometheus}
use forwardlimit.Observability.Fresh.{
  Fresh, Fresh-append, append-Fresh, Fresh-after, Fresh-map, prefix-apart,
}

abbrev pub own_names : List Text
own_names =
    codes "decisions_total"
    ∷ codes "store_errors_total"
    ∷ codes "block_cache_hits"
    ∷ codes "store_breaker_open"
    ∷ codes "check_duration_seconds"
    ∷ []

abbrev IsNameRest : ℕ → Type 0
IsNameRest d = (is_name_start d || is_digit d) ≡ true

IsMetricName-append : (s t : Text) → IsMetricName s → All IsNameRest t → IsMetricName (s ++ t)
IsMetricName-append [] t h r = elim h [ ]
IsMetricName-append (c ∷ s) t h r = (h.0, All-append IsNameRest s t h.1 r)

Fresh-own : Fresh [] own_names
Fresh-own = ground arith

module _ (p : Prometheus) (q : IsPrometheus p) where
  -- Collectors in a row, with the names that they describe together.
  data DescribeAll : List p.Collector → List Text → Type 0 where
    no_more : DescribeAll [] []
    also :
        {c : p.Collector}
        → {cs : List p.Collector} → {ns rest : List Text} → ns ≡ p.names c ++ rest
        → p.usable c
        → DescribeAll cs rest
        → DescribeAll (c ∷ cs) ns

  register_all-Fresh :
      {cs : List p.Collector}
      → {ns : List Text} → (r : p.Registry) → DescribeAll cs ns
      → Fresh (p.registered r) ns
      → (s : p.Registry) × (register_all p cs r ≡ some s) × (p.registered s ≡ p.registered r ++ ns)
  unfolding register_all
  register_all-Fresh r no_more h = (r, refl, rw (append-nil (p.registered r)) refl)
  register_all-Fresh r (also {c} {cs} {ns} {rest} e u d) h =
      let (now, later) =
        Fresh-append (p.registered r) (p.names c) rest (subst (Fresh (p.registered r)) e h) in
      let (s, made, holds) = q.registers c r u now in
      let (t, all_made, hold) =
        register_all-Fresh s d (subst (λ l. Fresh l rest) (sym holds) later) in
      (
        t,
        rw made all_made,
        hold ∙ rw (holds, e, append_assoc (p.registered r) (p.names c) rest) refl,
      )

  -- A namespace and a `_`, what every name starts with.
  abbrev pub prefix_of : Text → Text
  prefix_of setting = resolve_namespace setting ++ codes "_"

  prefix_of-IsMetricName : (setting : Text) → IsMetricName (prefix_of setting)
  prefix_of-IsMetricName setting =
      IsMetricName-append (resolve_namespace setting) (codes "_")
        (resolve_namespace-IsMetricName setting) (ground arith)

  -- The names without the prefix, in the order of their registration.
  abbrev pub bare_names : List Text
  bare_names = own_names ++ (p.names p.go_collector ++ p.names p.process_collector)

  lacking_process :
      (n : Text) → has_prefix n (codes "go_") ≡ true → has_prefix n (codes "process_") ≡ false
  unfolding has_prefix
  lacking_process [] h = ground arith
  lacking_process (c ∷ n) h = ground arith

  Fresh-bare : Fresh [] bare_names
  unfolding has_prefix
  Fresh-bare =
      let go = p.names p.go_collector in
      let process = p.names p.process_collector in
      let after_own =
        Fresh-after own_names [] go
          (prefix-apart (codes "go_") own_names go (ground arith) q.go_prefix) q.go_fresh in
      let none_process =
        All-append (λ m. has_prefix m (codes "process_") ≡ false) own_names go (ground arith)
          (All-map (λ m. has_prefix m (codes "go_") ≡ true)
            (λ m. has_prefix m (codes "process_") ≡ false) go lacking_process q.go_prefix) in
      let after_go =
        subst (λ l. Fresh l process) (append-nil (own_names ++ go))
          (Fresh-after (own_names ++ go) [] process
            (prefix-apart (codes "process_") (own_names ++ go) process none_process
              q.process_prefix)
            q.process_fresh) in
      append-Fresh [] own_names (go ++ process) Fresh-own
        (append-Fresh own_names go process after_own after_go)

  described :
      {c : p.Collector}
      → {n : Text} → {cs : List p.Collector} → {ns : List Text} → Describes p c (n ∷ [])
      → DescribeAll cs ns
      → DescribeAll (c ∷ cs) (n ∷ ns)
  described {c} {n} {cs} {ns} d ds = also (sym (ap (λ (l : List Text). l ++ ns) d.0)) d.1 ds

  -- The collectors of the runtime and of the process, under the prefix.
  runtime_described :
      (prefix : Text)
      → IsMetricName prefix
      → DescribeAll
          (p.with_prefix prefix p.go_collector ∷ p.with_prefix prefix p.process_collector ∷ [])
          (map (λ n. prefix ++ n) (p.names p.go_collector ++ p.names p.process_collector))
  runtime_described prefix ok =
      let go = q.prefixed prefix p.go_collector ok q.go_usable in
      let process = q.prefixed prefix p.process_collector ok q.process_usable in
      also {rest = map (λ n. prefix ++ n) (p.names p.process_collector)}
        (simp map-append (rw go.0 refl)) go.1
        (also
          (rw (process.0, append-nil (map (λ n. prefix ++ n) (p.names p.process_collector))) refl)
          process.1 no_more)

  -- The five collectors of the service, given its histogram.
  abbrev own_list : Text → p.Collector → List p.Collector
  own_list setting duration =
      let ns = resolve_namespace setting in
      p.new_counter_vec ns (codes "decisions_total") (codes "limiter" ∷ codes "decision" ∷ [])
      ∷ p.new_counter ns (codes "store_errors_total")
      ∷ p.new_gauge ns (codes "block_cache_hits")
      ∷ p.new_gauge ns (codes "store_breaker_open")
      ∷ duration
      ∷ []

  abbrev built : Text → p.Collector → p.Registry → Metrics p
  built setting duration registry =
      let ns = resolve_namespace setting in
      record {
        registry = registry;
        namespace = ns;
        decisions =
            p.new_counter_vec ns (codes "decisions_total")
              (codes "limiter" ∷ codes "decision" ∷ []);
        store_errors = p.new_counter ns (codes "store_errors_total");
        cache_hits = p.new_gauge ns (codes "block_cache_hits");
        breaker_open = p.new_gauge ns (codes "store_breaker_open");
        duration = duration;
      }

  own_described :
      (setting : Text)
      → (duration : p.Collector) × (p.new_histogram
            (resolve_namespace setting)
            (codes "check_duration_seconds")
            buckets
          ≡ some duration)
        × DescribeAll (own_list setting duration) (map (λ n. prefix_of setting ++ n) own_names)
  own_described setting =
      let ns = resolve_namespace setting in
      let named = IsMetricName-append (prefix_of setting) in
      let ok = prefix_of-IsMetricName setting in
      let permitted = λ (name : Text) (h : All IsNameRest name). named name ok h in
      let (duration, made, d) =
        q.histogram ns (codes "check_duration_seconds") buckets (permitted _ (ground arith))
          (omega arith) in
      let opened = q.gauge ns (codes "store_breaker_open") (permitted _ (ground arith)) in
      let hits = q.gauge ns (codes "block_cache_hits") (permitted _ (ground arith)) in
      let errors = q.counter ns (codes "store_errors_total") (permitted _ (ground arith)) in
      let decisions =
        q.counter_vec ns (codes "decisions_total") (codes "limiter" ∷ codes "decision" ∷ [])
          (permitted _ (ground arith)) (ground arith) in
      (
        duration,
        made,
        described decisions
            (described errors (described hits (described opened (described d no_more)))),
      )

  -- With a client library that keeps its laws, `NewMetrics` does not panic, whatever the namespace is
  -- set to. The registry then holds the five metrics of the service, those of the runtime and those
  -- of the process, and no others, each with the namespace that is reported and a `_` before its name.
  pub new_metrics-registered :
      (setting : Text)
      → (m : Metrics p) × (new_metrics p setting ≡ some m)
        × (m.namespace ≡ resolve_namespace setting)
        × (p.registered m.registry ≡ map (λ n. (m.namespace ++ codes "_") ++ n) bare_names)
  unfolding new_metrics
  new_metrics-registered setting =
      let ns = resolve_namespace setting in
      let pre = prefix_of setting in
      let bare_runtime = p.names p.go_collector ++ p.names p.process_collector in
      let (duration, made, all_own) = own_described setting in
      let (fresh_own, fresh_runtime) =
        Fresh-append [] (map (λ n. pre ++ n) own_names) (map (λ n. pre ++ n) bare_runtime)
          (Fresh-map pre [] bare_names Fresh-bare) in
      let (r, own_made, own_holds) =
        register_all-Fresh p.new_registry all_own
          (subst (λ l. Fresh l (map (λ n. pre ++ n) own_names)) (sym q.starts_empty) fresh_own) in
      let holds : p.registered r ≡ map (λ n. pre ++ n) own_names =
        own_holds ∙ rw q.starts_empty refl in
      let (s, all_made, all_hold) =
        register_all-Fresh r (runtime_described pre (prefix_of-IsMetricName setting))
          (subst (λ l. Fresh l (map (λ n. pre ++ n) bare_runtime)) (sym holds) fresh_runtime) in
      (built setting duration s, rw (made, own_made, all_made) refl, refl, all_hold ∙ rw holds refl)
