-- ===== src/Protocol/MetricMap.antt =====
-- pkg/agent/protocol/metricmap.go: counters by name. The mutex makes each operation one step. A
-- counter is a uint of 64 bits and wraps.
use xk6_disruptor.Prelude.{
  ℕ, ◌+◌, ◌%◌, Option, none, some, List, [], ◌∷◌, Text, text_eq, if◌then◌else◌,
}

pub record MetricMap : Type 0 where
  pub metrics : List (Text × ℕ)

abbrev pub uint_mod : ℕ
uint_mod = 18446744073709551616

-- m[name] = v, and the read `v, ok := m[name]`.
unfoldable pub assign : Text → ℕ → List (Text × ℕ) → List (Text × ℕ)
assign name v [] = (name, v) ∷ []
assign name v ((k, u) ∷ m) = if text_eq name k then (k, v) ∷ m else (k, u) ∷ assign name v m

unfoldable pub lookup : Text → List (Text × ℕ) → Option ℕ
lookup name [] = none
lookup name ((k, u) ∷ m) = if text_eq name k then some u else lookup name m

unfoldable pub init_all : List Text → List (Text × ℕ) → List (Text × ℕ)
unfolding assign
init_all [] m = m
init_all (name ∷ names) m = init_all names (assign name 0 m)

unfoldable pub new_metric_map : List Text → MetricMap
unfolding init_all
new_metric_map names = record { metrics = init_all names [] }

-- A missing counter reads as zero.
abbrev pub or_zero : Option ℕ → ℕ
or_zero none = 0
or_zero (some v) = v

unfoldable pub inc : MetricMap → Text → MetricMap
unfolding assign lookup
inc m name = record m {
  metrics = assign name ((or_zero (lookup name m.metrics) + 1) % uint_mod) m.metrics;
}

-- The loop of `Map`, which copies the counters into a new map.
unfoldable pub copy_into : List (Text × ℕ) → List (Text × ℕ) → List (Text × ℕ)
unfolding assign
copy_into out [] = out
copy_into out ((k, v) ∷ m) = copy_into (assign k v out) m

unfoldable pub to_map : MetricMap → List (Text × ℕ)
unfolding copy_into
to_map m = copy_into [] m.metrics
