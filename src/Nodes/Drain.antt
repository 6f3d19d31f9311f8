-- ===== src/Nodes/Drain.antt =====
-- pkg/disruptors/node.go: what Drain leaves of the nodes.
use xk6_disruptor.Prelude.{
  ◌≡◌, refl, sym, ap, ◌∙◌, inl, inr, true, false, none, some, List, Text, text_eq, text_eq_iff,
  wrap, is_some, ok, Bool-cases, Option-cases,
}
use xk6_disruptor.Nodes.Api.{Node, NodeApi}
use xk6_disruptor.Nodes.Helper
use xk6_disruptor.Nodes.Helper.{NodeEvictOptions}
use xk6_disruptor.Nodes.Disruptor.{drain_node, drain}
use xk6_disruptor.Nodes.Laws.{NodeLaws, SameNodes, for_each_node-keeps, evict_pods-SameNodes}

module _ {W : Type 0} {api : NodeApi W} (laws : NodeLaws api) where
  -- No node is cordoned.
  abbrev pub IsSchedulable : W → Type 0
  IsSchedulable w = (s : Text) (n : Node) → api.get w s ≡ ok n → n.unschedulable ≡ false

  drain_node_done :
      (options : NodeEvictOptions) (during : W → W) (w : W) (name : Text)
      → (drain_node api options during w name).0 ≡ none
      → let (e, w₁) = Helper.cordon api w name in
        let w₂ = (Helper.evict_pods api w₁ name options).1 in
        (is_some e ≡ false)
        × (drain_node api options during w name ≡ Helper.uncordon api (during w₂) name)
  unfolding drain_node
  drain_node_done options during w name done = elim (Option-cases (Helper.cordon api w name).0) [
    | inr (f, e) ↦
        absurd
          (let k : some (wrap "cordoning node: %w" f) ≡ none = rw (drain_node, e) at done in cc)
    | inl e ↦
        let w₁ = (Helper.cordon api w name).1 in
        elim (Option-cases (Helper.evict_pods api w₁ name options).0) [
          | inr (f, g) ↦ absurd (
              let k : some (wrap "evicting pods: %w" f) ≡ none = rw (drain_node, e, g) at done in
              cc)
          | inl g ↦ (ap is_some e, rw (drain_node, e, g) refl)
        ]
  ]

  -- On one node: cordoned, drained of its pods, and made schedulable again.
  drain_node_restores :
      (options : NodeEvictOptions) (during : W → W) (w : W) (name : Text)
      → ((v : W) → SameNodes api v (during v))
      → IsSchedulable w
      → (drain_node api options during w name).0 ≡ none
      → SameNodes api w (drain_node api options during w name).1
  unfolding Helper.cordon Helper.uncordon
  drain_node_restores options during w name quiet schedulable done s =
      let (cordoned, ends) = drain_node_done options during w name done in
      let w₁ = (api.patch w name true).1 in
      let w₂ = (Helper.evict_pods api w₁ name options).1 in
      let v = during w₂ in
      let (n, found) = laws.patch_found w name true cordoned in
      let same : SameNodes api w₁ v =
        λ r. quiet w₂ r ∙ evict_pods-SameNodes laws options w₁ name r in
      let read : api.get v name ≡ ok (record n { unschedulable = true }) =
        same name ∙ laws.get_patched w name true n cordoned found in
      let last : is_some (api.patch v name false).0 ≡ false = rw (sym ends) (ap is_some done) in
      rw ends (elim (Bool-cases (text_eq s name)) [
        | inl here ↦ rw ((text_eq_iff s name).0 here) (
            laws.get_patched v name false (record n { unschedulable = true }) last read
            ∙ ap (λ b. ok (record n { unschedulable = b })) (sym (schedulable name n found))
            ∙ sym found)
        | inr other ↦
            laws.get_patched_other v name s false other
            ∙ same s
            ∙ laws.get_patched_other w name s true other
      ])

  -- A drain that reports no error leaves every node as it was: where no node was cordoned, what
  -- happens during the fault changes no node, and the API server keeps what it accepts.
  pub drain_restores :
      (options : NodeEvictOptions) (during : W → W) (w : W) (names : List Text)
      → ((v : W) → SameNodes api v (during v))
      → IsSchedulable w
      → (drain api options during w names).0 ≡ none
      → SameNodes api w (drain api options during w names).1
  unfolding drain
  drain_restores options during w names quiet schedulable done =
      for_each_node-keeps (drain_node api options during) (SameNodes api w)
        (λ v name ended same s.
          drain_node_restores options during v name quiet
            (λ r n found. schedulable r n (sym (same r) ∙ found)) ended s
          ∙ same s)
        w names done (λ s. refl)

  -- When a node was cordoned and the eviction of its pods fails, the drain of the node reports an
  -- error and leaves the node cordoned: where the API server keeps what it accepts.
  pub failed_drain_leaves_cordon :
      (options : NodeEvictOptions) (during : W → W) (w : W) (name : Text) (n : Node)
      → api.get w name ≡ ok n
      → is_some (Helper.cordon api w name).0 ≡ false
      → is_some (Helper.evict_pods api (Helper.cordon api w name).1 name options).0 ≡ true
      → (is_some (drain_node api options during w name).0 ≡ true)
        × (api.get (drain_node api options during w name).1 name
            ≡ ok (record n { unschedulable = true }))
  unfolding drain_node Helper.cordon
  failed_drain_leaves_cordon options during w name n found cordoned failed =
      let w₁ = (api.patch w name true).1 in
      elim (Option-cases (Helper.evict_pods api w₁ name options).0) [
        | inl e ↦ absurd (cc (ap is_some e))
        | inr (f, e) ↦
            rw (cordoned, e)
              (
                refl,
                evict_pods-SameNodes laws options w₁ name name
                    ∙ laws.get_patched w name true n cordoned found,
              )
      ]
