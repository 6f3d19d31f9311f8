-- ===== src/Nodes/Taints.antt =====
-- pkg/disruptors/node.go: TaintNode gives every node its taints back.
use xk6_disruptor.Prelude.{
  ◌≡◌, refl, sym, ap, ◌∙◌, inl, inr, Bool, true, false, ◌||◌, none, some, List, [], ◌∷◌, ◌++◌,
  arith, Text, text_eq, text_eq_refl, text_eq_iff, Error, wrap, is_some, ok, err, Result-cases,
  Bool-cases, Option-cases,
}
use xk6_disruptor.Nodes.Api.{Taint, Node, NodeApi}
use xk6_disruptor.Nodes.Helper
use xk6_disruptor.Nodes.Helper.{has_taint, without_key}
use xk6_disruptor.Nodes.Disruptor.{NodeTaintFault, taint_of, taint_one, taint_node}
use xk6_disruptor.Nodes.Laws.{NodeLaws, SameNodes, for_each_node-keeps}

-- A taint of the key is among the taints.
abbrev pub has_key : Text → List Taint → Bool
has_key key [] = false
has_key key (t ∷ taints) = text_eq t.key key || has_key key taints

has_taint_key :
    (taint : Taint) (taints : List Taint)
    → has_key taint.key taints ≡ false
    → has_taint taint taints ≡ false
unfolding has_taint
has_taint_key taint [] h = refl
has_taint_key taint (t ∷ taints) h = ground (arith, has_taint_key taint taints)

without_key_added :
    (taint : Taint) (taints : List Taint)
    → has_key taint.key taints ≡ false
    → without_key taint.key (taints ++ taint ∷ []) ≡ taints
unfolding without_key
without_key_added taint [] h = rw (text_eq_refl taint.key) refl
without_key_added taint (t ∷ taints) h = elim (Bool-cases (text_eq t.key taint.key)) [
  | inl same ↦ absurd (let e : true ≡ false = rw same at h in cc)
  | inr other ↦ rw (other, without_key_added taint taints (rw other at h)) refl
]

module _ {W : Type 0} {api : NodeApi W} (laws : NodeLaws api) where
  -- No node has a taint of the key.
  abbrev pub KeyIsFree : Text → W → Type 0
  KeyIsFree key w = (s : Text) (n : Node) → api.get w s ≡ ok n → has_key key n.taints ≡ false

  update_twice :
      (w v : W) (name : Text) (n : Node) (taints : List Taint)
      → n.name ≡ name
      → api.get w name ≡ ok n
      → SameNodes api (api.update w (record n { taints = taints })).1 v
      → is_some (api.update v n).0 ≡ false
      → SameNodes api w (api.update v n).1
  update_twice w v name n taints named found same accepted s = elim (Bool-cases (text_eq s name)) [
    | inl here ↦
        rw ((text_eq_iff s name).0 here) (laws.get_updated v name n named accepted ∙ sym found)
    | inr other ↦
        laws.get_other v name s n named other
        ∙ same s
        ∙ laws.get_other w name s (record n { taints = taints }) named other
  ]

  add_taint_new :
      (w : W) (name : Text) (taint : Taint) (n : Node)
      → api.get w name ≡ ok n
      → has_taint taint n.taints ≡ false
      → Helper.add_taint api w name taint
        ≡ api.update w (record n { taints = n.taints ++ taint ∷ [] })
  unfolding Helper.add_taint
  add_taint_new w name taint n found absent = rw (Helper.add_taint, found, absent) refl

  remove_taint_found :
      (w : W) (name key : Text) (n : Node)
      → api.get w name ≡ ok n
      → Helper.remove_taint api w name key
        ≡ api.update w (record n { taints = without_key key n.taints })
  unfolding Helper.remove_taint
  remove_taint_found w name key n found = rw (Helper.remove_taint, found) refl

  -- A call with no error added the taint with no error, and ends with its removal.
  taint_one_done :
      (fault : NodeTaintFault) (during : W → W) (w : W) (name : Text)
      → (taint_one api fault during w name).0 ≡ none
      → let (e, w') = Helper.add_taint api w name (taint_of fault) in
        (is_some e ≡ false)
        × (taint_one api fault during w name ≡ Helper.remove_taint api (during w') name fault.key)
  unfolding taint_one
  taint_one_done fault during w name done =
      elim (Option-cases (Helper.add_taint api w name (taint_of fault)).0) [
        | inr (f, e) ↦
            absurd
              (let k : some (wrap "adding taint: %w" f) ≡ none = rw (taint_one, e) at done in cc)
        | inl e ↦ (ap is_some e, rw (taint_one, e) refl)
      ]

  add_taint_missing :
      (w : W) (name : Text) (taint : Taint) (f : Error)
      → api.get w name ≡ err f
      → is_some (Helper.add_taint api w name taint).0 ≡ true
  unfolding Helper.add_taint
  add_taint_missing w name taint f missing = rw (Helper.add_taint, missing) refl

  -- On one node: the accepted update of AddTaint, then the one of RemoveTaint.
  taint_one_restores :
      (fault : NodeTaintFault) (during : W → W) (w : W) (name : Text)
      → ((v : W) → SameNodes api v (during v))
      → KeyIsFree fault.key w
      → (taint_one api fault during w name).0 ≡ none
      → SameNodes api w (taint_one api fault during w name).1
  unfolding taint_of
  taint_one_restores fault during w name quiet free done = elim (Result-cases (api.get w name)) [
    | inr (f, missing) ↦ absurd (
        cc (
          (taint_one_done fault during w name done).0,
          add_taint_missing w name (taint_of fault) f missing,
        ))
    | inl (n, found) ↦
        let taint = taint_of fault in
        let (accepted, ends) = taint_one_done fault during w name done in
        let named = laws.get_named w name n found in
        let n₁ : Node = record n { taints = n.taints ++ taint ∷ [] } in
        let added =
          add_taint_new w name taint n found (has_taint_key taint n.taints (free name n found)) in
        let v = during (api.update w n₁).1 in
        let same : SameNodes api (api.update w n₁).1 v = quiet (api.update w n₁).1 in
        let read : api.get v name ≡ ok n₁ =
          same name ∙ laws.get_updated w name n₁ named (rw added at accepted) in
        let back : record n₁ { taints = without_key fault.key n₁.taints } ≡ n =
          ap (λ ts. record n { taints = ts })
            (without_key_added taint n.taints (free name n found)) in
        let whole : taint_one api fault during w name ≡ api.update v n =
          ends ∙ (rw (added, remove_taint_found v name fault.key n₁ read, back) refl) in
        let last : is_some (api.update v n).0 ≡ false = (rw (sym whole) (ap is_some done)) in
        rw whole (update_twice w v name n (n.taints ++ taint ∷ []) named found same last)
  ]

  -- A taint fault that reports no error leaves every node as it was: where no node had a taint of
  -- the key, what happens during the fault changes no node, and the API server keeps what it
  -- accepts.
  pub taint_node_restores :
      (fault : NodeTaintFault) (during : W → W) (w : W) (names : List Text)
      → ((v : W) → SameNodes api v (during v))
      → KeyIsFree fault.key w
      → (taint_node api fault during w names).0 ≡ none
      → SameNodes api w (taint_node api fault during w names).1
  unfolding taint_node
  taint_node_restores fault during w names quiet free done =
      for_each_node-keeps (taint_one api fault during) (SameNodes api w)
        (λ v name ended same s.
          taint_one_restores fault during v name quiet
            (λ r n found. free r n (sym (same r) ∙ found)) ended s
          ∙ same s)
        w names done (λ s. refl)
