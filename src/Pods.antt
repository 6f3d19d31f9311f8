-- ===== src/Pods.antt =====
-- pkg/utils/kubernetes.go: what the controller reads off pods and services. A pod and a service hold
-- the fields of Kubernetes' types that this code reads. A call that may panic gives an option, with
-- none for the panic.
pub mod Sampling
pub mod Ports
pub mod ServicePorts
use xk6_disruptor.Prelude.{
  ℕ, zero, suc, ◌+◌, ◌-◌, ◌*◌, ◌/◌, ◌%◌, ◌≤◌, ◌<◌, ◌≡◌, refl, sym, ap, ◌∙◌, ◌≢◌, ◌↔◌, ◌⊎◌, inl, inr,
  Bool, true, false, not, ◌&&◌, ◌||◌, Option, none, some, List, [], ◌∷◌, ◌++◌, map, append-nil,
  append_assoc, arith, Text, codes, text_eq, text_eq_refl, text_eq_iff, words_eq, words_eq_refl,
  words_eq_iff, is_empty, IsFree, split, split_word, cut, cut_word, IsFree-append, digits, show_ℕ,
  IsFree-show_ℕ, Error, message, wrap, canceled, deadline_exceeded, external, is_canceled, wrap_err,
  is_some, Result, ok, err, ◌>>=◌, ◌>>◌, fail_if, Result-cases, ltb, leb, ◌==◌, if◌then◌else◌,
  ltb→lt, lt→ltb, ==_iff, ==_refl, &&_iff, Bool-cases, Option-cases, length, take, drop,
  length-append, All, All-append, list_eq, count_if, count_if_ext, count_if_all, count_if_disjoint,
  ℤ, pos, negsuc, pos_part, neg_part, sub_ℕ, ◌+ℤ◌, ◌-ℤ◌, ◌*ℤ◌, quot_ℤ, ◌≤ℤ◌, ltb_ℤ, eq_ℤ,
  eq_of_parts, eq_ℤ→eq, eq_ℤ_refl, int32_mod, int32_max, IsInt32, to_int32, to_int32_in_range,
  to_int32-IsInt32, int64_mod, int64_max, IsInt64, to_int64, to_int64_in_range,
}
use xk6_disruptor.IntOrString.{
  IntOrString, null_value, value_type_int, value_type_string, type_of, is_int, int32, as_percentage,
  is_zero, is_null, from_int32,
}

pub record ContainerPort : Type 0 where
  pub container_port_name : Text
  pub container_port : ℤ

pub record Pod : Type 0 where
  pub pod_name : Text
  pub pod_namespace : Text
  pub pod_ip_address : Text
  pub host_network : Bool
  pub containers : List (List ContainerPort)

pub record ServicePort : Type 0 where
  pub service_port_name : Text
  pub service_port : ℤ
  -- what the service port's TargetPort.String() gives
  pub target_port : Text

-- The loop over the ports of a service. Int32 is called only at an integer whose name differs.
unfoldable pub find_service_port : IntOrString → List ServicePort → Option (Result IntOrString)
unfolding is_int int32
find_service_port svc_port [] = some (err (message "the service does not expose the given svcPort"))
find_service_port svc_port (p ∷ ports) =
    let rest = find_service_port svc_port ports in
    if text_eq svc_port p.service_port_name
    then some (ok p.target_port)
    else if not (is_int svc_port)
    then rest
    else (elim (int32 svc_port) [
      | none ↦ none
      | some n ↦ if eq_ℤ n p.service_port then some (ok p.target_port) else rest
    ])

-- The default port of a service: the index 0 panics when the service has no port.
unfoldable pub default_port : List ServicePort → Option (Result IntOrString)
default_port [] = none
default_port (p ∷ []) = some (ok p.target_port)
default_port (p ∷ q ∷ ports) =
    some (err (message "no port selected and service exposes more than one service"))

unfoldable pub get_target_port : List ServicePort → IntOrString → Option (Result IntOrString)
unfolding is_null is_zero default_port find_service_port
get_target_port ports svc_port =
    if is_null svc_port then default_port ports else (elim (is_zero svc_port) [
      | none ↦ none
      | some zero_port ↦ if zero_port then default_port ports else find_service_port svc_port ports
    ])

-- The first port, container by container, that passes the test.
unfoldable pub first_port : (ContainerPort → Bool) → List ContainerPort → Option ContainerPort
first_port test [] = none
first_port test (p ∷ ports) = let rest = first_port test ports in if test p then some p else rest

unfoldable pub first_in : (ContainerPort → Bool) → List (List ContainerPort) → Option ContainerPort
unfolding first_port
first_in test [] = none
first_in test (ports ∷ rest) = elim (first_port test ports) [
  | some p ↦ some p
  | none ↦ first_in test rest
]

unfoldable pub exported : Option ContainerPort → Option (Result IntOrString)
unfolding from_int32
exported none = some (err (message "pod %q does not export port %q"))
exported (some p) = some (ok (from_int32 p.container_port))

-- Int32 is called in the loop only: a pod with no port never panics.
unfoldable pub has_ports : List (List ContainerPort) → Bool
has_ports [] = false
has_ports ([] ∷ rest) = has_ports rest
has_ports ((p ∷ ports) ∷ rest) = true

unfoldable pub find_port : IntOrString → Pod → Option (Result IntOrString)
unfolding type_of int32 first_in exported has_ports
find_port port pod = elim (type_of port) [
  | value_type_string ↦ exported (first_in (λ p. text_eq p.container_port_name port) pod.containers)
  | value_type_int ↦ (elim (int32 port) [
    | none ↦ if has_ports pod.containers then none else exported none
    | some n ↦ exported (first_in (λ p. eq_ℤ p.container_port n) pod.containers)
  ])
]

unfoldable pub has_host_network : Pod → Bool
has_host_network pod = pod.host_network

unfoldable pub pod_ip : Pod → Result Text
pod_ip pod =
    if not (is_empty pod.pod_ip_address)
    then ok pod.pod_ip_address
    else err (message "pod %s/%s does not have an IP address")

unfoldable pub pod_names : List Pod → List Text
pod_names [] = []
pod_names (pod ∷ pods) = pod.pod_name ∷ pod_names pods

unfoldable pub pod_ips : List Pod → List Text
pod_ips [] = []
pod_ips (pod ∷ pods) =
    let rest = pod_ips pods in
    if not (is_empty pod.pod_ip_address) then pod.pod_ip_address ∷ rest else rest

-- math.Max(1, math.Round(x / 100)) at an integer x: halves are rounded away from zero, and what is
-- not above 1 gives 1. The quotient is a float64, which is exact enough below 2 ^ 53.
unfoldable pub percent_of : ℤ → ℕ
percent_of x = let rounded = (pos_part x + 50) / 100 in if ltb rounded 1 then 1 else rounded

-- pods[:size]: panics at a negative size.
unfoldable pub first_pods : List Pod → ℤ → Option (Result (List Pod))
first_pods pods (negsuc n) = none
first_pods pods (pos n) =
    if ltb (length pods) n
    then some (err (message "cannot sample %d pods out of a total of %d"))
    else some (ok (take n pods))

unfoldable pub sample : List Pod → IntOrString → Option (Result (List Pod))
unfolding is_int int32 as_percentage percent_of first_pods
sample pods count =
    if is_int count
    then (elim (int32 count) [ none ↦ none | some size ↦ first_pods pods size ])
    else (elim (as_percentage count) [
      | none ↦ none
      | some (percentage, valid) ↦
          if not valid
          then some (err (message "count is not a valid percentage: %s"))
          else if eq_ℤ percentage (pos 0)
          then some (ok [])
          else first_pods pods (pos (percent_of (pos (length pods) *ℤ percentage)))
    ])
