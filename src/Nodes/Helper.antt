-- ===== src/Nodes/Helper.antt =====
-- pkg/kubernetes/helpers/nodes.go: the operations on a node, its taints and its pods.
use xk6_disruptor.Prelude.{
  Bool, true, false, not, ◌&&◌, ◌||◌, Option, none, some, List, [], ◌∷◌, ◌++◌, Text, codes, text_eq,
  Error, message, wrap, ok, err, ltb, if◌then◌else◌, length,
}
use xk6_disruptor.Nodes.Api.{Taint, NodePod, NodeApi}

pub record NodeEvictOptions : Type 0 where
  pub skip_daemon_sets : Bool
  pub delete_local_data : Bool

-- The loops that look for an owner, for a local volume, and for the taint.
unfoldable pub is_daemon_set : List Text → Bool
unfolding text_eq
is_daemon_set [] = false
is_daemon_set (kind ∷ kinds) = text_eq kind (codes "DaemonSet") || is_daemon_set kinds

unfoldable pub has_local : List Bool → Bool
has_local [] = false
has_local (local ∷ volumes) = local || has_local volumes

unfoldable pub has_taint : Taint → List Taint → Bool
unfolding text_eq
has_taint taint [] = false
has_taint taint (t ∷ taints) =
    (text_eq t.key taint.key && text_eq t.effect taint.effect) || has_taint taint taints

-- The taints with another key.
unfoldable pub without_key : Text → List Taint → List Taint
unfolding text_eq
without_key key [] = []
without_key key (t ∷ taints) =
    let rest = without_key key taints in if not (text_eq t.key key) then t ∷ rest else rest

module _ {W : Type 0} (api : NodeApi W) where
  unfoldable pub cordon : W → Text → Option Error × W
  cordon w name = api.patch w name true

  unfoldable pub uncordon : W → Text → Option Error × W
  uncordon w name = api.patch w name false

  unfoldable pub add_taint : W → Text → Taint → Option Error × W
  unfolding has_taint
  add_taint w name taint = elim (api.get w name) [
    | err e ↦ (some e, w)
    | ok node ↦
        if has_taint taint node.taints
        then (none, w)
        else api.update w (record node { taints = node.taints ++ taint ∷ [] })
  ]

  unfoldable pub remove_taint : W → Text → Text → Option Error × W
  unfolding without_key
  remove_taint w name key = elim (api.get w name) [
    | err e ↦ (some e, w)
    | ok node ↦ api.update w (record node { taints = without_key key node.taints })
  ]

  -- The body of the loop over the pods, after the two tests that skip a pod.
  unfoldable pub evict_pod : W → NodePod → List Error → List Error × W
  evict_pod w pod errors =
      let (e, w') = api.evict w pod.namespace pod.name in
      elim e [
        | none ↦ (errors, w')
        | some f ↦
            if api.is_not_found f
            then (errors, w')
            else (errors ++ wrap "evicting pod %s/%s: %w" f ∷ [], w')
      ]

  unfoldable pub evict_loop : NodeEvictOptions → W → List NodePod → List Error → List Error × W
  unfolding is_daemon_set has_local evict_pod
  evict_loop options w [] errors = (errors, w)
  evict_loop options w (pod ∷ pods) errors =
      let (errors', w') = evict_pod w pod errors in
      let skipped = evict_loop options w pods errors in
      let evicted = evict_loop options w' pods errors' in
      if options.skip_daemon_sets && is_daemon_set pod.owner_kinds
      then skipped
      else if not options.delete_local_data && has_local pod.local_volumes
      then skipped
      else evicted

  unfoldable pub evict_pods : W → Text → NodeEvictOptions → Option Error × W
  unfolding evict_loop
  evict_pods w node_name options = elim (api.list_pods w node_name) [
    | err e ↦ (some e, w)
    | ok pods ↦
        (let (errors, w') = evict_loop options w pods [] in
          (
            if ltb 0 (length errors)
                then some (message "errors evicting pods from node %s: %v")
                else none,
            w',
          ))
  ]

  unfoldable pub delete_pod : W → Text → Text → Option Error × W
  delete_pod w namespace name =
      let (e, w') = api.delete_pod w namespace name in
      elim e [ none ↦ (none, w') | some f ↦ (if api.is_not_found f then none else some f, w') ]
