-- ===== src/Protocol/Counters.antt =====
-- pkg/agent/protocol/metricmap.go: what a counter reads after each operation.
use xk6_disruptor.Prelude.{
  ℕ, ◌+◌, ◌%◌, ◌≡◌, refl, Bool, false, ◌||◌, none, some, List, [], ◌∷◌, arith, Text, text_eq,
  text_eq_iff, is_some, if◌then◌else◌,
}
use xk6_disruptor.Protocol.MetricMap.{
  MetricMap, uint_mod, assign, lookup, init_all, new_metric_map, or_zero, inc, copy_into, to_map,
}

abbrev pub contains : Text → List Text → Bool
contains j [] = false
contains j (name ∷ names) = text_eq j name || contains j names

pub lookup-assign :
    (j k : Text) (v : ℕ) (m : List (Text × ℕ))
    → lookup j (assign k v m) ≡ (if text_eq j k then some v else lookup j m)
unfolding lookup assign
lookup-assign j k v [] = refl
lookup-assign j k v ((i, u) ∷ m) =
    ground (arith, text_eq_iff j k, text_eq_iff k i, text_eq_iff j i, lookup-assign j k v m)

-- The value of a counter; 0 where it is missing.
abbrev pub counter : MetricMap → Text → ℕ
counter m name = or_zero (lookup name m.metrics)

-- A counter after an event that it counts, or does not.
abbrev pub bump : Bool → ℕ → ℕ
bump b n = if b then (n + 1) % uint_mod else n

-- Inc adds one to its counter, modulo 2^64, and leaves every other as it was.
pub counter-inc :
    (m : MetricMap) (name j : Text) → counter (inc m name) j ≡ bump (text_eq j name) (counter m j)
unfolding inc
counter-inc m name j =
    ground
      (arith, lookup-assign j name ((counter m name + 1) % uint_mod) m.metrics, text_eq_iff j name)

-- Whether the map has a counter of the name.
pub lookup-init_all :
    (j : Text) (names : List Text) (m : List (Text × ℕ))
    → lookup j (init_all names m) ≡ (if contains j names then some 0 else lookup j m)
unfolding init_all
lookup-init_all j [] m = refl
lookup-init_all j (name ∷ names) m =
    rw (lookup-init_all j names (assign name 0 m)) (ground (arith, lookup-assign j name 0 m))

-- A new map has each of its counters at zero, and no other counter.
pub lookup-new_metric_map :
    (j : Text) (names : List Text)
    → lookup j (new_metric_map names).metrics ≡ (if contains j names then some 0 else none)
unfolding new_metric_map lookup
lookup-new_metric_map j names = lookup-init_all j names []

pub counter-new_metric_map : (names : List Text) (j : Text) → counter (new_metric_map names) j ≡ 0
counter-new_metric_map names j = ground (arith, lookup-new_metric_map j names)

-- No name stands twice in the list.
abbrev pub IsKeyed : List (Text × ℕ) → Type 0
IsKeyed [] = Unit
IsKeyed ((k, v) ∷ m) = (lookup k m ≡ none) × IsKeyed m

assign-IsKeyed : (k : Text) (v : ℕ) (m : List (Text × ℕ)) → IsKeyed m → IsKeyed (assign k v m)
unfolding assign lookup
assign-IsKeyed k v [] h = (refl, tt)
assign-IsKeyed k v ((i, u) ∷ m) h =
    ground (arith, assign-IsKeyed k v m, lookup-assign i k v m, text_eq_iff k i, text_eq_iff i k)

pub init_all-IsKeyed :
    (names : List Text) (m : List (Text × ℕ)) → IsKeyed m → IsKeyed (init_all names m)
unfolding init_all
init_all-IsKeyed [] m h = h
init_all-IsKeyed (name ∷ names) m h =
    init_all-IsKeyed names (assign name 0 m) (assign-IsKeyed name 0 m h)

pub inc-IsKeyed : (m : MetricMap) (name : Text) → IsKeyed m.metrics → IsKeyed (inc m name).metrics
unfolding inc
inc-IsKeyed m name h = assign-IsKeyed name _ m.metrics h

lookup-copy_into :
    (j : Text) (out m : List (Text × ℕ))
    → IsKeyed m
    → lookup j (copy_into out m) ≡ (if is_some (lookup j m) then lookup j m else lookup j out)
unfolding copy_into lookup
lookup-copy_into j out [] h = refl
lookup-copy_into j out ((k, v) ∷ m) h =
    rw (lookup-copy_into j (assign k v out) m h.1)
      (ground (arith, lookup-assign j k v out, text_eq_iff j k, h.0))

-- The copy that Map returns reads like the map itself, at every name, for a map that holds each
-- name once.
pub lookup-to_map :
    (j : Text) (m : MetricMap) → IsKeyed m.metrics → lookup j (to_map m) ≡ lookup j m.metrics
unfolding to_map lookup
lookup-to_map j m h = rw (lookup-copy_into j [] m.metrics h) (ground arith)
