-- ===== src/Nodes/Laws.antt =====
-- What the node disruptor relies on of the Kubernetes API, as hypotheses: a read gives the node with the
-- name, a change that is accepted is read back and changes no other node, one that is refused changes
-- nothing, and an eviction changes no node. And what holds of a function run on every node.
use xk6_disruptor.Prelude.{
  ℕ, ◌≤◌, ◌≡◌, refl, ◌∙◌, inl, inr, Bool, false, not, ◌&&◌, Option, none, some, List, [], ◌∷◌,
  arith, Text, text_eq, Error, is_some, ok, Result-cases, if◌then◌else◌, Bool-cases, Option-cases,
  length,
}
use xk6_disruptor.Workload.Disruptor.{join_errors, collect}
use xk6_disruptor.Workload.Reverts.{length-collect}
use xk6_disruptor.Nodes.Api.{Node, NodePod, NodeApi}
use xk6_disruptor.Nodes.Helper.{
  NodeEvictOptions, evict_pod, evict_loop, evict_pods, is_daemon_set, has_local,
}
use xk6_disruptor.Nodes.Disruptor.{for_each, for_each_node}

pub record NodeLaws {W : Type 0} (api : NodeApi W) : Type 0 where
  pub get_named : (w : W) (name : Text) (n : Node) → api.get w name ≡ ok n → n.name ≡ name
  pub get_updated :
      (w : W) (name : Text) (n : Node)
      → n.name ≡ name
      → is_some (api.update w n).0 ≡ false
      → api.get (api.update w n).1 name ≡ ok n
  pub get_other :
      (w : W) (name s : Text) (n : Node)
      → n.name ≡ name
      → text_eq s name ≡ false
      → api.get (api.update w n).1 s ≡ api.get w s
  pub get_patched :
      (w : W) (name : Text) (b : Bool) (n : Node)
      → is_some (api.patch w name b).0 ≡ false
      → api.get w name ≡ ok n
      → api.get (api.patch w name b).1 name ≡ ok (record n { unschedulable = b })
  pub get_patched_other :
      (w : W) (name s : Text) (b : Bool)
      → text_eq s name ≡ false
      → api.get (api.patch w name b).1 s ≡ api.get w s
  pub patch_found :
      (w : W) (name : Text) (b : Bool)
      → is_some (api.patch w name b).0 ≡ false
      → (n : Node) × (api.get w name ≡ ok n)
  pub get_evicted :
      (w : W) (namespace pod s : Text) → api.get (api.evict w namespace pod).1 s ≡ api.get w s

-- The reads of two states agree at every node.
abbrev pub SameNodes : {W : Type 0} → NodeApi W → W → W → Type 0
SameNodes api v w = (s : Text) → api.get w s ≡ api.get v s

abbrev one_if_some : Option Error → ℕ
one_if_some e = if is_some e then 1 else 0

only_none : (e : Option Error) → one_if_some e ≡ 0 → e ≡ none
only_none none h = refl
only_none (some e) h = absurd (omega (arith, h))

no_errors : (errors : List Error) → join_errors errors ≡ none → length errors ≡ 0
no_errors [] h = refl
no_errors (e ∷ errors) h = absurd cc

module _ {W : Type 0} (fn : W → Text → Option Error × W) where
  length-for_each :
      (w : W) (names : List Text) (errors : List Error)
      → length errors ≤ length (for_each fn w names errors).0
  unfolding for_each
  length-for_each w [] errors = omega arith
  length-for_each w (name ∷ names) errors =
      let (e, w') = fn w name in
      omega (
        arith,
        length-for_each w' names (collect "node %s: %w" e errors),
        length-collect "node %s: %w" e errors,
      )

  for_each-keeps :
      (P : W → Type 0)
      → ((w : W) (name : Text) → (fn w name).0 ≡ none → P w → P (fn w name).1)
      → (w : W) (names : List Text) (errors : List Error)
      → length (for_each fn w names errors).0 ≡ 0
      → P w
      → P (for_each fn w names errors).1
  unfolding for_each
  for_each-keeps P step w [] errors clean p = p
  for_each-keeps P step w (name ∷ names) errors clean p =
      let (e, w') = fn w name in
      let bound = length-for_each w' names (collect "node %s: %w" e errors) in
      let added = length-collect "node %s: %w" e errors in
      for_each-keeps P step w' names (collect "node %s: %w" e errors) clean
        (step w name (only_none e (omega (arith, bound, added, clean))) p)

  -- What each call with no error keeps, the calls on all the nodes with no error keep.
  pub for_each_node-keeps :
      (P : W → Type 0)
      → ((w : W) (name : Text) → (fn w name).0 ≡ none → P w → P (fn w name).1)
      → (w : W) (names : List Text) → (for_each_node fn w names).0 ≡ none
      → P w
      → P (for_each_node fn w names).1
  unfolding for_each_node
  for_each_node-keeps P step w names h p =
      for_each-keeps P step w names [] (no_errors (for_each fn w names []).0 h) p

module _ {W : Type 0} {api : NodeApi W} (laws : NodeLaws api) where
  evict_pod-SameNodes :
      (w : W) (pod : NodePod) (errors : List Error) (s : Text)
      → api.get (evict_pod api w pod errors).1 s ≡ api.get w s
  unfolding evict_pod
  evict_pod-SameNodes w pod errors s = elim (Option-cases (api.evict w pod.namespace pod.name).0) [
    | inl e ↦ rw (evict_pod, e) (laws.get_evicted w pod.namespace pod.name s)
    | inr (f, e) ↦ elim (Bool-cases (api.is_not_found f)) [
      | inl gone ↦ rw (evict_pod, e, gone) (laws.get_evicted w pod.namespace pod.name s)
      | inr failed ↦ rw (evict_pod, e, failed) (laws.get_evicted w pod.namespace pod.name s)
    ]
  ]

  evict_loop-SameNodes :
      (options : NodeEvictOptions) (v w : W) (pods : List NodePod) (errors : List Error)
      → SameNodes api v w
      → SameNodes api v (evict_loop api options w pods errors).1
  unfolding evict_loop
  evict_loop-SameNodes options v w [] errors h = h
  evict_loop-SameNodes options v w (pod ∷ pods) errors h = λ s.
      let skipped = evict_loop-SameNodes options v w pods errors h s in
      let evicted =
        evict_loop-SameNodes options v (evict_pod api w pod errors).1 pods
          (evict_pod api w pod errors).0 (λ r. evict_pod-SameNodes w pod errors r ∙ h r) s in
      elim (Bool-cases (options.skip_daemon_sets && is_daemon_set pod.owner_kinds)) [
        | inl daemon ↦ rw daemon skipped
        | inr other ↦
            elim (Bool-cases (not options.delete_local_data && has_local pod.local_volumes)) [
              | inl kept ↦ rw (other, kept) skipped
              | inr free ↦ rw (other, free) evicted
            ]
      ]

  -- Evictions change no node.
  pub evict_pods-SameNodes :
      (options : NodeEvictOptions) (w : W) (name : Text)
      → SameNodes api w (evict_pods api w name options).1
  unfolding evict_pods
  evict_pods-SameNodes options w name s = elim (Result-cases (api.list_pods w name)) [
    | inr (e, failed) ↦ rw (evict_pods, failed) refl
    | inl (pods, listed) ↦
        rw (evict_pods, listed) (evict_loop-SameNodes options w w pods [] (λ r. refl) s)
  ]
