-- ===== src/Workload/Replica.antt =====
-- pkg/disruptors/replica.go: a change of the replica count. The counts are int32; a pointer that
-- may be nil is an option.
use xk6_disruptor.Prelude.{
  ℕ, ◌+◌, Bool, false, not, ◌&&◌, Option, none, some, Error, message, ◌==◌, if◌then◌else◌, ℤ, pos,
  ◌+ℤ◌, ◌*ℤ◌, quot_ℤ, ltb_ℤ, to_int32,
}

pub record ReplicaChangeFault : Type 0 where
  pub replicas : Option ℤ
  pub delta : Option ℤ
  pub percentage : Option ℤ
  pub auto_revert : Bool

abbrev pub not_exactly_one : Error
not_exactly_one = message "exactly one of replicas, delta, or percentage must be set (got %d)"

abbrev pub negative_percentage : Error
negative_percentage = message "percentage must be >= 0 (got %d)"

abbrev pub duration_not_positive : Error
duration_not_positive = message "duration must be > 0 when autoRevert is true"

abbrev pub is_set : Option ℤ → ℕ
is_set none = 0
is_set (some v) = 1

abbrev pub is_negative : Option ℤ → Bool
is_negative none = false
is_negative (some v) = ltb_ℤ v (pos 0)

unfoldable pub validate : ReplicaChangeFault → ℤ → Option Error
validate f duration =
    if not (is_set f.replicas + is_set f.delta + is_set f.percentage == 1)
    then some not_exactly_one
    else if is_negative f.percentage
    then some negative_percentage
    else if f.auto_revert && not (ltb_ℤ (pos 0) duration)
    then some duration_not_positive
    else none

-- The switch of `Resolve`: the first field that is set counts. The product is an int64, which the
-- product of two int32 fits.
unfoldable pub target_of : Option ℤ → Option ℤ → Option ℤ → ℤ → ℤ
target_of (some replicas) delta percentage current = replicas
target_of none (some delta) percentage current = to_int32 (current +ℤ delta)
target_of none none (some percentage) current = to_int32 (quot_ℤ (current *ℤ percentage) 100)
target_of none none none current = pos 0

unfoldable pub resolve : ReplicaChangeFault → ℤ → ℤ
unfolding target_of
resolve f current =
    let target = target_of f.replicas f.delta f.percentage current in
    if ltb_ℤ target (pos 0) then pos 0 else target
