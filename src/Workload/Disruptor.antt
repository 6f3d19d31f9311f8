-- ===== src/Workload/Disruptor.antt =====
-- pkg/disruptors/workload.go: the disruptor that scales workloads and restores them. One goroutine
-- scales each target; the targets are distinct, so the goroutines meet only in the map under the
-- lock, and an execution is a sequence of whole calls of applyScale in some order.
use Prim.Native.String.{String}
use xk6_disruptor.Prelude.{
  Option, none, some, List, [], ◌∷◌, ◌++◌, Error, wrap, is_some, ok, err, if◌then◌else◌, ℤ, eq_ℤ,
}
use xk6_disruptor.Workload.Replica.{ReplicaChangeFault, validate, resolve}
use xk6_disruptor.Workload.Helper
use xk6_disruptor.Workload.Helper.{Api, WorkloadRef, ref_eq}
use xk6_disruptor.Workload.Selector
use xk6_disruptor.Workload.Selector.{WorkloadSelectorSpec}

-- The map `originals`.
abbrev pub Originals : Type 0
Originals = List (WorkloadRef × ℤ)

unfoldable pub lookup : WorkloadRef → Originals → Option ℤ
lookup r [] = none
lookup r ((k, v) ∷ m) = if ref_eq r k then some v else lookup r m

-- The write of a key that is not recorded yet, and delete(originals, r).
unfoldable pub record_original : WorkloadRef → ℤ → Originals → Originals
unfolding lookup
record_original r v m = if is_some (lookup r m) then m else (r, v) ∷ m

unfoldable pub delete : WorkloadRef → Originals → Originals
delete r [] = []
delete r ((k, v) ∷ m) = let rest = delete r m in if ref_eq r k then rest else (k, v) ∷ rest

-- errors.Join: nil where there is no error.
abbrev pub join_errors : List Error → Option Error
join_errors [] = none
join_errors (e ∷ es) = some (wrap "errors.Join" e)

abbrev pub collect : String → Option Error → List Error → List Error
collect format none errs = errs
collect format (some e) errs = errs ++ wrap format e ∷ []

module _ {W : Type 0} (api : Api W) where
  unfoldable pub apply_scale :
      W → Originals → WorkloadRef → ReplicaChangeFault → Option Error × Originals × W
  unfolding record_original
  apply_scale w m ref fault = elim (Helper.get_replicas api w ref) [
    | err e ↦ (some (wrap "reading replicas: %w" e), m, w)
    | ok current ↦
        (let m' = record_original ref current m in
          let target = resolve fault current in
          let (e, w') = Helper.scale api w ref target in
          if eq_ℤ target current then (none, m', w) else (e, m', w'))
  ]

  -- The goroutines in the order in which they run, and the errors that are received.
  unfoldable pub scale_each :
      W
      → Originals
      → List WorkloadRef
      → ReplicaChangeFault
      → List Error
      → List Error × Originals × W
  unfolding apply_scale
  scale_each w m [] fault errs = (errs, m, w)
  scale_each w m (ref ∷ refs) fault errs =
      let (e, m', w') = apply_scale w m ref fault in
      scale_each w' m' refs fault (collect "%s: %w" e errs)

  -- The loop of revertAll over a copy of the map.
  unfoldable pub revert_each :
      W → Originals → List (WorkloadRef × ℤ) → List Error → List Error × Originals × W
  unfolding delete
  revert_each w m [] errs = (errs, m, w)
  revert_each w m ((ref, replicas) ∷ pending) errs =
      let (e, w') = Helper.scale api w ref replicas in
      revert_each w' (if is_some e then m else delete ref m) pending
        (collect "restoring %s to %d: %w" e errs)

  unfoldable pub revert_all : W → Originals → Option Error × Originals × W
  unfolding revert_each
  revert_all w m = let (errs, m', w') = revert_each w m m [] in (join_errors errs, m', w')

  -- `order` is the order in which the goroutines of the targets run.
  unfoldable pub scale_replicas :
      W
      → Originals
      → WorkloadSelectorSpec
      → ReplicaChangeFault
      → ℤ
      → (List WorkloadRef → List WorkloadRef)
      → Option Error × Originals × W
  unfolding scale_each revert_all
  scale_replicas w m spec fault duration order = elim (validate fault duration) [
    | some e ↦ (some e, m, w)
    | none ↦ elim (Selector.targets api w spec) [
      | err e ↦ (some e, m, w)
      | ok refs ↦
          (let (errs, m', w') = scale_each w m (order refs) fault [] in
            let reverted = revert_all w' m' in
            if is_some (join_errors errs)
            then (join_errors errs, m', w')
            else if fault.auto_revert
            then reverted
            else (none, m', w'))
    ]
  ]

  -- Cleanup
  unfoldable pub cleanup : W → Originals → Option Error × Originals × W
  unfolding revert_all
  cleanup w m = revert_all w m
