-- ===== src/Workload/Selector.antt =====
-- pkg/disruptors/workload_selector.go: which workloads are targets.
use xk6_disruptor.Prelude.{
  true, false, not, ◌&&◌, ◌||◌, List, [], ◌∷◌, Text, codes, text_eq, is_empty, Error, message, wrap,
  Result, ok, err, ◌>>◌, fail_if, ◌==◌, if◌then◌else◌, length,
}
use xk6_disruptor.Workload.Helper
use xk6_disruptor.Workload.Helper.{
  Api, WorkloadRef, workload_kind_deployment, workload_kind_stateful_set,
}

pub record WorkloadAttributes : Type 0 where
  pub name : Text
  pub labels : List (Text × Text)

pub record WorkloadSelectorSpec : Type 0 where
  pub kind : Text
  pub namespace : Text
  pub select : WorkloadAttributes

abbrev pub no_workloads : Error
no_workloads = message "no workloads found matching selector"

abbrev pub kind_required : Error
kind_required = message "kind is required (Deployment or StatefulSet)"

abbrev pub kind_unsupported : Error
kind_unsupported = message "unsupported kind %q (supported: Deployment, StatefulSet)"

abbrev pub select_required : Error
select_required = message "select.name or select.labels must be provided"

abbrev pub select_ambiguous : Error
select_ambiguous = message "provide either select.name or select.labels, not both"

unfoldable pub namespace_or_default : WorkloadSelectorSpec → Text
namespace_or_default s = if is_empty s.namespace then codes "default" else s.namespace

unfoldable pub new_workload_selector : WorkloadSelectorSpec → Result WorkloadSelectorSpec
unfolding text_eq
new_workload_selector spec = do
  let known =
      text_eq spec.kind workload_kind_deployment || text_eq spec.kind workload_kind_stateful_set
  fail_if (is_empty spec.kind) kind_required
  fail_if (not known) kind_unsupported
  fail_if (is_empty spec.select.name && length spec.select.labels == 0) select_required
  fail_if (not (is_empty spec.select.name) && not (length spec.select.labels == 0)) select_ambiguous
  ok spec

module _ {W : Type 0} (api : Api W) where
  unfoldable pub targets : W → WorkloadSelectorSpec → Result (List WorkloadRef)
  unfolding namespace_or_default
  targets w spec =
      let namespace = namespace_or_default spec in
      let ref : WorkloadRef = record {
        kind = spec.kind;
        namespace = namespace;
        name = spec.select.name;
      } in
      if is_empty spec.select.name
      then elim (Helper.list api w spec.kind namespace spec.select.labels) [
        | err e ↦ err (wrap "listing %s in %s: %w" e)
        | ok [] ↦ err (wrap "%s in ns %q with labels %v: %w" no_workloads)
        | ok (r ∷ rs) ↦ ok (r ∷ rs)
      ]
      else elim (Helper.exists api w ref) [
        | err e ↦ err (wrap "looking up %s: %w" e)
        | ok false ↦ err (wrap "%s: %w" no_workloads)
        | ok true ↦ ok (ref ∷ [])
      ]
