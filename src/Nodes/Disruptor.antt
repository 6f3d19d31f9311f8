-- ===== src/Nodes/Disruptor.antt =====
-- pkg/disruptors/node.go: the node disruptor. What happens in the cluster while it waits is a function
-- on the state. The goroutines of forEachNode act on a node each, and an execution is a sequence of
-- whole calls in some order of the nodes.
use xk6_disruptor.Prelude.{
  not, ◌&&◌, Option, none, some, List, [], ◌∷◌, Text, codes, text_eq, is_empty, Error, message,
  wrap, wrap_err, is_some, Result, ok, err, ltb, if◌then◌else◌, length, ℤ, pos, ltb_ℤ,
}
use xk6_disruptor.Nodes.Api.{Taint, Node, PrivilegedPodSpec, NodeApi}
use xk6_disruptor.Nodes.Helper
use xk6_disruptor.Nodes.Helper.{NodeEvictOptions}
use xk6_disruptor.Workload.Disruptor.{join_errors, collect}

pub record NodeTaintFault : Type 0 where
  pub key : Text
  pub value : Text
  pub effect : Text

pub record NodeDisruptorOptions : Type 0 where
  pub agent_image : Text
  pub agent_namespace : Text
  pub inject_timeout : ℤ

abbrev pub not_both : Error
not_both = message "provide either name or select.labels, not both"

abbrev pub none_provided : Error
none_provided = message "either name or select.labels must be provided"

-- corev1.TaintEffectNoSchedule, and corev1.NodeInternalIP
abbrev pub no_schedule : Text
no_schedule = codes "NoSchedule"

abbrev pub internal_ip : Text
internal_ip = codes "InternalIP"

unfoldable pub node_names : List Node → List Text
node_names [] = []
node_names (n ∷ nodes) = n.name ∷ node_names nodes

-- The first internal address of each node that has one.
unfoldable pub first_internal : List (Text × Text) → Option Text
unfolding text_eq
first_internal [] = none
first_internal ((kind, address) ∷ rest) =
    let later = first_internal rest in if text_eq kind internal_ip then some address else later

unfoldable pub node_ips : List Node → List Text
unfolding first_internal
node_ips [] = []
node_ips (n ∷ nodes) =
    let rest = node_ips nodes in
    elim (first_internal n.addresses) [ none ↦ rest | some ip ↦ ip ∷ rest ]

unfoldable pub agent_image : Text → NodeDisruptorOptions → Text
agent_image default options =
    if not (is_empty options.agent_image) then options.agent_image else default

unfoldable pub agent_namespace : NodeDisruptorOptions → Text
agent_namespace options =
    if not (is_empty options.agent_namespace) then options.agent_namespace else codes "kube-system"

unfoldable pub inject_timeout : NodeDisruptorOptions → ℤ
inject_timeout options =
    if ltb_ℤ (pos 0) options.inject_timeout then options.inject_timeout else pos 30000000000

unfoldable pub taint_of : NodeTaintFault → Taint
taint_of fault = record {
  key = fault.key;
  value = fault.value;
  effect = if is_empty fault.effect then no_schedule else fault.effect;
}

module _ {W : Type 0} where
  -- The calls in the order in which they end, and the errors that are received.
  unfoldable pub for_each :
      (W → Text → Option Error × W) → W → List Text → List Error → List Error × W
  for_each fn w [] errors = (errors, w)
  for_each fn w (name ∷ names) errors =
      let (e, w') = fn w name in for_each fn w' names (collect "node %s: %w" e errors)

  unfoldable pub for_each_node : (W → Text → Option Error × W) → W → List Text → Option Error × W
  unfolding for_each
  for_each_node fn w names = let (errors, w') = for_each fn w names [] in (join_errors errors, w')

module _ {W : Type 0} (api : NodeApi W) where
  unfoldable pub new_node_disruptor : W → Text → List (Text × Text) → Result (List Node)
  new_node_disruptor w name labels =
      if not (is_empty name) && ltb 0 (length labels)
      then err not_both
      else if not (is_empty name)
      then elim (api.get w name) [
        | err e ↦ err (wrap "getting node %q: %w" e)
        | ok node ↦ ok (node ∷ [])
      ]
      else if ltb 0 (length labels)
      then elim (api.list w labels) [
        | err e ↦ err (wrap "listing nodes: %w" e)
        | ok [] ↦ err (message "no nodes matched selector %v")
        | ok (node ∷ nodes) ↦ ok (node ∷ nodes)
      ]
      else err none_provided

  -- The function that Drain runs on a node: `during` is what happens in its wait.
  unfoldable pub drain_node : NodeEvictOptions → (W → W) → W → Text → Option Error × W
  unfolding Helper.cordon Helper.uncordon Helper.evict_pods
  drain_node options during w name =
      let (e₁, w₁) = Helper.cordon api w name in
      let (e₂, w₂) = Helper.evict_pods api w₁ name options in
      let restored = Helper.uncordon api (during w₂) name in
      if is_some e₁
      then (wrap_err "cordoning node: %w" e₁, w₁)
      else if is_some e₂
      then (wrap_err "evicting pods: %w" e₂, w₂)
      else restored

  unfoldable pub drain : NodeEvictOptions → (W → W) → W → List Text → Option Error × W
  unfolding for_each_node drain_node
  drain options during = for_each_node (drain_node options during)

  unfoldable pub taint_one : NodeTaintFault → (W → W) → W → Text → Option Error × W
  unfolding taint_of Helper.add_taint Helper.remove_taint
  taint_one fault during w name =
      let (e, w') = Helper.add_taint api w name (taint_of fault) in
      let removed = Helper.remove_taint api (during w') name fault.key in
      if is_some e then (wrap_err "adding taint: %w" e, w') else removed

  unfoldable pub taint_node : NodeTaintFault → (W → W) → W → List Text → Option Error × W
  unfolding for_each_node taint_one
  taint_node fault during = for_each_node (taint_one fault during)

  -- The wait for the pod's completion is a parameter: its error, and the state it ends in.
  unfoldable pub run_privileged_pod :
      Text
      → NodeDisruptorOptions
      → (W → Option Error × W)
      → W
      → Text
      → Text
      → List Text
      → Option Error × W
  unfolding agent_namespace agent_image Helper.delete_pod
  run_privileged_pod default options wait_pod_completed w node_name pod_name args =
      let namespace = agent_namespace options in
      let spec : PrivilegedPodSpec = record {
        name = pod_name;
        namespace = namespace;
        node_name = node_name;
        image = agent_image default options;
        command = codes "xk6-disruptor-agent" ∷ [];
        args = args;
      } in
      let (e, w') = api.create_pod w spec in
      let (completed, w'') = wait_pod_completed w' in
      if is_some e
      then (wrap_err "creating privileged pod: %w" e, w')
      else (completed, (Helper.delete_pod api w'' namespace pod_name).1)
