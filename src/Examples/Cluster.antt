-- ===== src/Examples/Cluster.antt =====
-- The theorems on replica changes at work on a cluster, which is a function from workloads to replica
-- counts; an object of which the test says that it is frozen refuses an update.
use xk6_disruptor.Prelude.{
  ◌≡◌, refl, sym, inl, inr, Bool, true, false, Option, none, some, List, [], ◌∷◌, arith, Text,
  codes, Error, message, ok, err, Result-cases, if◌then◌else◌, Bool-cases, ℤ, pos, ◌*ℤ◌, quot_ℤ,
  to_int32,
}
use xk6_disruptor.Workload.Replica.{ReplicaChangeFault, resolve, validate}
use xk6_disruptor.Workload.Resolve.{resolve_overflow}
use xk6_disruptor.Workload.Helper
use xk6_disruptor.Workload.Helper.{Api, WorkloadRef, ref_eq, ref_eq_iff}
use xk6_disruptor.Workload.Selector.{WorkloadSelectorSpec}
use xk6_disruptor.Workload.Selector
use xk6_disruptor.Workload.Disruptor
use xk6_disruptor.Workload.Restores.{ApiLaws}
use xk6_disruptor.Workload.Reverts.{NonNegative}
use xk6_disruptor.Workload.Executions.{Call, run, auto_revert_restores, cleanup_restores}

abbrev Cluster : Type 0
Cluster = WorkloadRef → Option ℤ

abbrev conflict : Error
conflict = message "conflict"

unfoldable api : (WorkloadRef → Bool) → List WorkloadRef → Api Cluster
unfolding ref_eq
api frozen all = record {
  get = λ w r. ok (w r);
  update = λ w r n.
      if frozen r then (some conflict, w) else (none, λ s. if ref_eq s r then some n else w s);
  list = λ w kind namespace labels. ok all;
  is_not_found = λ e. false;
}

ref_eq_refl : (r : WorkloadRef) → ref_eq r r ≡ true
ref_eq_refl r = (ref_eq_iff r r).1 refl

api-ApiLaws : (frozen : WorkloadRef → Bool) (all : List WorkloadRef) → ApiLaws (api frozen all)
unfolding api
api-ApiLaws frozen all = record {
  read_updated = λ w r n. elim (Bool-cases (frozen r)) [
    | inl bad ↦ rw bad (λ h. absurd cc)
    | inr good ↦ rw (good, ref_eq_refl r) (λ h. refl)
  ];
  read_other = λ w r s n h. elim (Bool-cases (frozen r)) [
    | inl bad ↦ rw bad refl
    | inr good ↦ rw (good, h) refl
  ];
  read_refused = λ w r s n. elim (Bool-cases (frozen r)) [
    | inl bad ↦ rw bad (λ h. refl)
    | inr good ↦ rw good (λ h. absurd cc)
  ];
}

abbrev workload : Text → WorkloadRef
workload name = record { kind = codes "Deployment"; namespace = codes "default"; name = name }

abbrev two_workloads : List WorkloadRef
two_workloads = workload (codes "front") ∷ workload (codes "back") ∷ []

-- Four replicas each.
abbrev four_each : Cluster
four_each r = some (pos 4)

abbrev no_freeze : WorkloadRef → Bool
no_freeze r = false

abbrev by_labels : WorkloadSelectorSpec
by_labels = record {
  kind = codes "Deployment";
  namespace = [];
  select = record { name = []; labels = (codes "app", codes "shop") ∷ [] };
}

abbrev halve : ReplicaChangeFault
halve = record { replicas = none; delta = none; percentage = some (pos 50); auto_revert = true }

abbrev to_one : ReplicaChangeFault
to_one = record { replicas = some (pos 1); delta = none; percentage = none; auto_revert = false }

ok_injective : {a b : ℤ} → ok a ≡ ok b → a ≡ b
ok_injective h = cc

four_each-NonNegative :
    (frozen : WorkloadRef → Bool)
    → NonNegative (Helper.get_replicas (api frozen two_workloads) four_each)
unfolding api Helper.get_replicas
four_each-NonNegative frozen r v h = elim (Result-cases (Helper.validate_kind r.kind)) [
  | inl (u, known) ↦
      let e : ok (pos 4) ≡ ok v = rw known at h in rw (sym (ok_injective e)) (omega arith)
  | inr (e, unknown) ↦ absurd (let f : err e ≡ ok v = rw unknown at h in cc)
]

auto_revert_restores_example :
    Helper.get_replicas
      (api no_freeze two_workloads)
      (Disruptor.scale_replicas
        (api no_freeze two_workloads)
        four_each
        []
        by_labels
        halve
        (pos 2000000000)
        (λ refs. refs)).2
      (workload (codes "front"))
    ≡ Helper.get_replicas (api no_freeze two_workloads) four_each (workload (codes "front"))
unfolding Disruptor.scale_replicas validate Selector.targets Helper.list Helper.validate_kind api
    Helper.get_replicas resolve to_int32 quot_ℤ ◌*ℤ◌ Helper.scale
auto_revert_restores_example =
    auto_revert_restores (api-ApiLaws no_freeze two_workloads) four_each by_labels halve
      (pos 2000000000) (λ refs. refs) (four_each-NonNegative no_freeze) refl refl
      (workload (codes "front"))

-- A scaling, and a call that is refused because its fault asks for nothing.
abbrev nothing_asked : ReplicaChangeFault
nothing_asked = record { replicas = none; delta = none; percentage = none; auto_revert = false }

abbrev calls : List (Call (api-ApiLaws no_freeze two_workloads))
calls =
    Call.scale by_labels to_one (pos 0) (λ refs. refs)
    ∷ Call.scale by_labels nothing_asked (pos 0) (λ refs. refs)
    ∷ []

cleanup_restores_example :
    Helper.get_replicas
      (api no_freeze two_workloads)
      (Disruptor.cleanup
        (api no_freeze two_workloads)
        (run (api-ApiLaws no_freeze two_workloads) four_each [] calls).1
        (run (api-ApiLaws no_freeze two_workloads) four_each [] calls).0).2
      (workload (codes "back"))
    ≡ Helper.get_replicas (api no_freeze two_workloads) four_each (workload (codes "back"))
unfolding Disruptor.cleanup Disruptor.scale_replicas validate Selector.targets Helper.list
    Helper.validate_kind api Helper.get_replicas resolve Helper.scale
cleanup_restores_example =
    cleanup_restores (api-ApiLaws no_freeze two_workloads) four_each calls
      (four_each-NonNegative no_freeze) refl (workload (codes "back"))

abbrev one_more : ReplicaChangeFault
one_more = record { replicas = none; delta = some (pos 1); percentage = none; auto_revert = false }

resolve_overflow_example : resolve one_more (pos 2147483647) ≡ pos 0
resolve_overflow_example =
    resolve_overflow one_more 2147483647 1 refl refl (omega arith) (omega arith) (omega arith)
