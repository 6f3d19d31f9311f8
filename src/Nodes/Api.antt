-- ===== src/Nodes/Api.antt =====
-- What pkg/kubernetes/helpers/nodes.go uses of the Kubernetes API: nodes, the pods that run on them, and
-- the calls that read and change them. The API server is a parameter over a state W.
use xk6_disruptor.Prelude.{Bool, Option, List, Text, Error, Result}

pub record Taint : Type 0 where
  pub key : Text
  pub value : Text
  pub effect : Text

-- The name, spec.unschedulable, spec.taints, and status.addresses as types with addresses.
pub record Node : Type 0 where
  pub name : Text
  pub unschedulable : Bool
  pub taints : List Taint
  pub addresses : List (Text × Text)

-- A volume is what the code reads of it: whether it has an emptyDir or a hostPath.
pub record NodePod : Type 0 where
  pub namespace : Text
  pub name : Text
  pub owner_kinds : List Text
  pub local_volumes : List Bool

pub record PrivilegedPodSpec : Type 0 where
  pub name : Text
  pub namespace : Text
  pub node_name : Text
  pub image : Text
  pub command : List Text
  pub args : List Text

pub record NodeApi (W : Type 0) : Type 0 where
  pub get : W → Text → Result Node
  pub list : W → List (Text × Text) → Result (List Node)
  pub update : W → Node → Option Error × W
  -- the merge patch of spec.unschedulable
  pub patch : W → Text → Bool → Option Error × W
  pub list_pods : W → Text → Result (List NodePod)
  -- namespace and name of the pod
  pub evict : W → Text → Text → Option Error × W
  pub create_pod : W → PrivilegedPodSpec → Option Error × W
  pub delete_pod : W → Text → Text → Option Error × W
  pub is_not_found : Error → Bool
