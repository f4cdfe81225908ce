-- ===== src/Tests/Metrics.antt =====
-- A registry that refuses a name which is taken, for internal/observability/observability.go.
use forwardlimit.Common.{
  ◌≡◌, ◌≢◌, refl, Bool, true, false, ◌&&◌, ◌||◌, not, none, some, List, [], ◌∷◌, ◌++◌, map, any,
  All, if◌then◌else◌, arith,
}
use forwardlimit.Common.Text.{
  Text, codes, text_eq, text_eq→eq, has_prefix, is_space, trim_space, trim_left, trim_right,
}
use forwardlimit.Observability.{
  is_name_start, is_digit, resolve_namespace, sanitise_namespace, sanitise_from,
}
use forwardlimit.Observability.Namespace.{IsMetricName}
use forwardlimit.Observability.Collectors.{Prometheus, Metrics, new_metrics}
use forwardlimit.Observability.Fresh.{Fresh}
use forwardlimit.Observability.Laws.{IsPrometheus, full_name}
use forwardlimit.Observability.Registration.{own_names, new_metrics-registered}

-- A collector: its names, and whether they are permitted.
record Described : Type 0 where
  names : List Text
  permitted : Bool

abbrev is_rest : Text → Bool
is_rest [] = true
is_rest (d ∷ s) = (is_name_start d || is_digit d) && is_rest s

abbrev is_metric_name : Text → Bool
is_metric_name [] = false
is_metric_name (c ∷ s) = is_name_start c && is_rest s

rest_lem : (s : Text) → All (λ d. (is_name_start d || is_digit d) ≡ true) s → is_rest s ≡ true
rest_lem [] h = refl
rest_lem (d ∷ s) h = rw (h.0, rest_lem s h.1) refl

name_lem : (s : Text) → IsMetricName s → is_metric_name s ≡ true
name_lem [] h = elim h [ ]
name_lem (c ∷ s) h = rw (h.0, rest_lem s h.1) refl

-- Whether each name is new when its turn comes.
abbrev all_new : List Text → List Text → Bool
all_new seen [] = true
all_new seen (n ∷ ns) = not (any (text_eq n) seen) && all_new (seen ++ (n ∷ [])) ns

new_lem : (n : Text) (seen : List Text) → All (λ m. n ≢ m) seen → any (text_eq n) seen ≡ false
new_lem n [] h = refl
new_lem n (m ∷ seen) h = ground (arith, text_eq→eq n m, h.0, new_lem n seen h.1)

all_new_lem : (seen ns : List Text) → Fresh seen ns → all_new seen ns ≡ true
all_new_lem seen [] h = refl
all_new_lem seen (n ∷ ns) h = rw (new_lem n seen h.0, all_new_lem (seen ++ (n ∷ [])) ns h.1) refl

abbrev one : Text → Text → Described
one namespace name =
    let n = full_name namespace name in record { names = n ∷ []; permitted = is_metric_name n }

abbrev client : Prometheus
client = record {
  Collector = Described;
  Registry = List Text;
  new_counter_vec = λ namespace name labels. one namespace name;
  new_counter = one;
  new_gauge = one;
  new_histogram = λ namespace name bounds. some (one namespace name);
  go_collector = record {
    names = codes "go_goroutines" ∷ codes "go_threads" ∷ [];
    permitted = true;
  };
  process_collector = record { names = codes "process_open_fds" ∷ []; permitted = true };
  names = λ c. c.names;
  usable = λ c. c.permitted ≡ true;
  with_prefix = λ prefix c. record c { names = map (λ n. prefix ++ n) c.names };
  new_registry = [];
  registered = λ r. r;
  must_register = λ c r. if c.permitted && all_new r c.names then some (r ++ c.names) else none;
}

client_lem : IsPrometheus client
unfolding has_prefix
client_lem = record {
  counter_vec = λ namespace name labels h ls. (refl, name_lem (full_name namespace name) h);
  counter = λ namespace name h. (refl, name_lem (full_name namespace name) h);
  gauge = λ namespace name h. (refl, name_lem (full_name namespace name) h);
  histogram = λ namespace name bounds h bs.
      (one namespace name, refl, (refl, name_lem (full_name namespace name) h));
  go_usable = refl;
  go_fresh = ground arith;
  go_prefix = ground arith;
  process_usable = refl;
  process_fresh = ground arith;
  process_prefix = ground arith;
  prefixed = λ prefix c h u. (refl, u);
  starts_empty = refl;
  registers = λ c r u h. (r ++ c.names, rw (u, all_new_lem r c.names h) refl, refl);
}

new_metrics-registered_example :
    (m : Metrics client) × (new_metrics client (codes " acme-rl ") ≡ some m)
    × (m.namespace ≡ codes "acme_rl")
    × (m.registry
        ≡ map
            (λ n. (m.namespace ++ codes "_") ++ n)
            (own_names
              ++ (codes "go_goroutines" ∷ codes "go_threads" ∷ codes "process_open_fds" ∷ [])))
unfolding resolve_namespace sanitise_namespace sanitise_from trim_space trim_left trim_right
    is_space
new_metrics-registered_example = new_metrics-registered client client_lem (codes " acme-rl ")
