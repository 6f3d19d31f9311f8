-- ===== src/Workload/Helper.antt =====
-- pkg/kubernetes/helpers/workloads.go: reading and writing the replica count of a workload. The API
-- server is a parameter: the reads of a state, and an update that gives an error or a new state.
use xk6_disruptor.Prelude.{
  ◌≡◌, ◌↔◌, Bool, true, false, not, ◌&&◌, ◌||◌, Option, none, some, List, arith, Text, codes,
  text_eq, text_eq_iff, Error, message, wrap, wrap_err, Result, ok, err, ◌>>◌, fail_if,
  if◌then◌else◌, ℤ, pos, ltb_ℤ,
}

pub record WorkloadRef : Type 0 where
  pub kind : Text
  pub namespace : Text
  pub name : Text

unfoldable pub ref_eq : WorkloadRef → WorkloadRef → Bool
ref_eq a b = text_eq a.kind b.kind && (text_eq a.namespace b.namespace && text_eq a.name b.name)

pub ref_eq_iff : (a b : WorkloadRef) → (ref_eq a b ≡ true) ↔ (a ≡ b)
unfolding ref_eq
ref_eq_iff a b = ground (
  arith,
  text_eq_iff a.kind b.kind,
  text_eq_iff a.namespace b.namespace,
  text_eq_iff a.name b.name,
)

abbrev pub workload_kind_deployment : Text
workload_kind_deployment = codes "Deployment"

abbrev pub workload_kind_stateful_set : Text
workload_kind_stateful_set = codes "StatefulSet"

abbrev pub unsupported_kind : Error
unsupported_kind = message "unsupported workload kind %q (supported: Deployment, StatefulSet)"

-- What the API server does for the calls of this file: a read of spec.replicas, which may be nil;
-- an update of it; a list by labels; and whether an error says that the object is missing.
pub record Api (W : Type 0) : Type 0 where
  pub get : W → WorkloadRef → Result (Option ℤ)
  pub update : W → WorkloadRef → ℤ → Option Error × W
  pub list : W → Text → Text → List (Text × Text) → Result (List WorkloadRef)
  pub is_not_found : Error → Bool

unfoldable pub validate_kind : Text → Result (Unit {0})
unfolding text_eq
validate_kind kind =
    fail_if (not (text_eq kind workload_kind_deployment || text_eq kind workload_kind_stateful_set))
      unsupported_kind

abbrev pub at_least_zero : ℤ → ℤ
at_least_zero replicas = if ltb_ℤ replicas (pos 0) then pos 0 else replicas

module _ {W : Type 0} (api : Api W) where
  -- The two cases of the switch are the same code for the two kinds.
  unfoldable pub get_replicas : W → WorkloadRef → Result ℤ
  get_replicas w ref = do
    validate_kind ref.kind
    elim (api.get w ref) [
      | err e ↦ err (wrap "getting %s: %w" e)
      | ok none ↦ ok (pos 1)
      | ok (some replicas) ↦ ok replicas
    ]

  unfoldable pub scale : W → WorkloadRef → ℤ → Option Error × W
  scale w ref replicas = elim (validate_kind ref.kind) [
    | err e ↦ (some e, w)
    | ok _ ↦ elim (api.get w ref) [
      | err e ↦ (some (wrap "getting %s: %w" e), w)
      | ok _ ↦
          (let (e, w') = api.update w ref (at_least_zero replicas) in
            (wrap_err "scaling %s to %d: %w" e, w'))
    ]
  ]

  unfoldable pub list : W → Text → Text → List (Text × Text) → Result (List WorkloadRef)
  list w kind namespace labels = do validate_kind kind; api.list w kind namespace labels

  unfoldable pub exists : W → WorkloadRef → Result Bool
  exists w ref = do
    validate_kind ref.kind
    elim (api.get w ref) [ err e ↦ if api.is_not_found e then ok false else err e | ok _ ↦ ok true ]
