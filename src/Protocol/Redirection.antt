-- ===== src/Protocol/Redirection.antt =====
-- pkg/agent/protocol/redirector.go: what a start and a stop of the redirector leave in the machine.
use xk6_disruptor.Prelude.{
  ℕ, suc, ◌+◌, ◌≤◌, ◌<◌, ◌≡◌, refl, ap, ◌∙◌, ◌↔◌, inl, inr, false, Option, none, some, List, [],
  ◌∷◌, ◌++◌, append-nil, arith, Text, words_eq, words_eq_refl, words_eq_iff, Error, is_some,
  if◌then◌else◌, Bool-cases, Option-cases, length, take,
}
use Prim.Native.Nat.{min, max}
use xk6_disruptor.Iptables
use xk6_disruptor.Iptables.{Executor}
use xk6_disruptor.Iptables.Rule.{Rule, IsWellFormed, words}
use xk6_disruptor.Iptables.RuleSet.{to_list}
use xk6_disruptor.Iptables.Netfilter.{
  Netfilter, DeletesPresent, copies-add, copies-remove, remove_accepted,
}
use xk6_disruptor.Iptables.Tracking.{tracked, AllWellFormed}
use xk6_disruptor.Protocol.Redirector
use xk6_disruptor.Protocol.Redirector.{TrafficRedirectionSpec}

rules-AllWellFormed : (tr : TrafficRedirectionSpec) → AllWellFormed (Redirector.rules tr)
unfolding Redirector.rules
rules-AllWellFormed tr = omega arith

reset_proxy_rule-IsWellFormed :
    (tr : TrafficRedirectionSpec) → IsWellFormed (Redirector.reset_proxy_rule tr)
unfolding Redirector.reset_proxy_rule
reset_proxy_rule-IsWellFormed tr = omega arith

is_none : (e : Option Error) → is_some e ≡ false → e ≡ none
is_none none h = refl
is_none (some x) h = cc

take-length : (rs : List Rule) → take (length rs) rs ≡ rs
take-length [] = refl
take-length (r ∷ rs) = ap (λ t. r ∷ t) (take-length rs)

first-ne-reset :
    (tr : TrafficRedirectionSpec)
    → words_eq (words (Redirector.redirect_local_rule tr)) (words (Redirector.reset_proxy_rule tr))
      ≡ false
unfolding words words_eq Redirector.redirect_local_rule Redirector.reset_proxy_rule
first-ne-reset tr = refl

abbrev rest_of : TrafficRedirectionSpec → List Rule
rest_of tr =
    Redirector.redirect_external_rule tr
    ∷ Redirector.reset_local_rule tr
    ∷ Redirector.reset_external_rule tr
    ∷ []

module _ {W : Type 0} {executor : Executor W} {copies : W → List Text → ℕ}
    (net : Netfilter executor copies) where
  -- The loop of Start adds the rules up to the first that is refused: the machine then holds the
  -- first n of them, and n is their number exactly when there is no error. For rules with no blank
  -- in a table's or chain's name, where the iptables binary obeys Netfilter.
  pub add_rules_prefix :
      (w : W) (rs : List Rule)
      → AllWellFormed rs
      → let (e, w') = Redirector.add_rules executor w rs in
        (n : ℕ) × (n ≤ length rs)
        × ((e ≡ none) ↔ (n ≡ length rs))
        × ((k : List Text) → copies w' k ≡ copies w k + tracked k (take n rs))
  unfolding Redirector.add_rules
  add_rules_prefix w [] v = (0, omega arith, (λ _. refl, λ _. refl), λ k. omega arith)
  add_rules_prefix w (r ∷ rs) v = elim (Bool-cases (is_some (Iptables.add executor w r).0)) [
    | inl refused ↦ (
      0,
      omega arith,
      (λ e. ground arith, λ e. absurd (omega arith)),
      λ k. ground (arith, copies-add net w r v.0 k),
    )
    | inr accepted ↦
        let (n, h, iff, held) = add_rules_prefix (Iptables.add executor w r).1 rs v.1 in
        rw accepted (
          suc n,
          omega arith,
          (λ e. ap suc (iff.0 e), λ e. iff.1 (omega arith)),
          λ k. ground (arith, held k, copies-add net w r v.0 k),
        )
  ]

  add_rules_success :
      (w : W) (rs : List Rule)
      → AllWellFormed rs
      → let (e, w') = Redirector.add_rules executor w rs in
        is_some e ≡ false → (k : List Text) → copies w' k ≡ copies w k + tracked k rs
  add_rules_success w rs v h k =
      let (n, bound, iff, held) = add_rules_prefix w rs v in
      rw (iff.0 (is_none _ h), take-length rs) at (held k)

  add_rules_first :
      (w : W) (r : Rule) (rs : List Rule)
      → AllWellFormed (r ∷ rs)
      → is_some (Iptables.add executor w r).0 ≡ false
      → copies w (words r) + 1 ≤ copies (Redirector.add_rules executor w (r ∷ rs)).1 (words r)
  unfolding Redirector.add_rules
  add_rules_first w r rs v accepted =
      let (n, bound, iff, held) = add_rules_prefix (Iptables.add executor w r).1 rs v.1 in
      rw accepted (
        ground (
          arith,
          accepted,
          held (words r),
          copies-add net w r v.0 (words r),
          words_eq_refl (words r),
        ))

  -- A first rule that was added is there after `Start`, whatever happens to the other rules.
  pub start_keeps_first :
      (w : W) (tr : TrafficRedirectionSpec)
      → let first = Redirector.redirect_local_rule tr in
        let wr = (Iptables.remove executor w (Redirector.reset_proxy_rule tr)).1 in
        is_some (Iptables.add executor wr first).0 ≡ false
        → copies w (words first) + 1 ≤ copies (Redirector.start executor w tr).1 (words first)
  unfolding Redirector.start Redirector.rules
  start_keeps_first w tr accepted =
      let reset = Redirector.reset_proxy_rule tr in
      let first = Redirector.redirect_local_rule tr in
      let wr = (Iptables.remove executor w reset).1 in
      ground (
        arith,
        add_rules_first wr first (rest_of tr) (rules-AllWellFormed tr) accepted,
        copies-remove net w reset (reset_proxy_rule-IsWellFormed tr) (words first),
        first-ne-reset tr,
      )

  module _ (deletes : DeletesPresent executor copies) where
    -- The loop of `Stop`, where all its rules are there: it meets no error, and takes one copy of each.
    remove_rules_present :
        (base : List Text → ℕ) (w : W) (rs : List Rule) (errors : List Error)
        → AllWellFormed rs
        → ((k : List Text) → copies w k ≡ base k + tracked k rs)
        → let (errors', w') = Redirector.remove_rules executor w rs errors in
          (errors' ≡ errors) × ((k : List Text) → copies w' k ≡ base k)
    unfolding Redirector.remove_rules
    remove_rules_present base w [] errors v h = (refl, λ k. omega (arith, h k))
    remove_rules_present base w (r ∷ rs) errors v h =
        let present : 0 < copies w (words r) =
          ground (arith, h (words r), words_eq_refl (words r)) in
        let accepted = remove_accepted executor copies deletes w r v.0 present in
        let rest : (k : List Text)
            → copies (Iptables.remove executor w r).1 k ≡ base k + tracked k rs =
          λ k. ground (arith, h k, copies-remove net w r v.0 k, accepted) in
        let (same, held) =
          remove_rules_present base (Iptables.remove executor w r).1 rs
            (errors ++ to_list (Iptables.remove executor w r).0) v.1 rest in
        (same ∙ rw accepted (append-nil errors), held)

    -- The reset rule of the proxy, once `Start` has tried to delete it.
    reset_rule_removed :
        (w : W) (r : Rule)
        → IsWellFormed r
        → (k : List Text)
        → copies (Iptables.remove executor w r).1 k
            + (if words_eq k (words r) then min 1 (copies w (words r)) else 0)
          ≡ copies w k
    reset_rule_removed w r v k = elim (Option-cases (Iptables.remove executor w r).0) [
      | inl accepted ↦ ground (
        arith,
        accepted,
        copies-remove net w r v k,
        copies-remove net w r v (words r),
        words_eq_refl (words r),
        words_eq_iff k (words r),
      )
      | inr (x, refused) ↦
          let absent : copies w (words r) ≡ 0 =
            ground (arith, refused, remove_accepted executor copies deletes w r v) in
          ground (arith, refused, copies-remove net w r v k)
    ]

    stop_after_start :
        (w : W) (tr : TrafficRedirectionSpec) (w₁ : W) (k : List Text)
        → let (e₁, started) = Redirector.start executor w tr in
          let (e₂, w₂) = Redirector.stop executor w₁ tr in
          let reset = words (Redirector.reset_proxy_rule tr) in
          is_some e₁ ≡ false
          → ((j : List Text) → copies w₁ j ≡ copies started j)
          → (words_eq k reset ≡ false → copies w₂ k ≡ copies w k)
            × (is_some e₂ ≡ false → copies w₂ reset ≡ max 1 (copies w reset))
    unfolding Redirector.start Redirector.stop
    stop_after_start w tr w₁ k h₁ same =
        let r = Redirector.reset_proxy_rule tr in
        let wr = (Iptables.remove executor w r).1 in
        let w' = (Redirector.remove_rules executor w₁ (Redirector.rules tr) []).1 in
        let formed = rules-AllWellFormed tr in
        let reset_formed = reset_proxy_rule-IsWellFormed tr in
        let (none_left, restored) =
          remove_rules_present (copies wr) w₁ (Redirector.rules tr) [] formed
            (λ j. same j ∙ add_rules_success wr (Redirector.rules tr) formed h₁ j) in
        (
          λ other. ground (
            arith,
            restored k,
            reset_rule_removed w r reset_formed k,
            copies-add net w' r reset_formed k,
          ),
          λ h₂. ground (
            arith,
            none_left,
            restored (words r),
            reset_rule_removed w r reset_formed (words r),
            copies-add net w' r reset_formed (words r),
            words_eq_refl (words r),
          ),
        )

    -- A start of the redirector with no error and a stop after it, in any state that has the rules
    -- of the first, leave every rule but the reset rule of the proxy as it was; where the iptables
    -- binary obeys Netfilter and deletes what is there.
    pub stop-start :
        (w : W) (tr : TrafficRedirectionSpec) (w₁ : W) (k : List Text)
        → is_some (Redirector.start executor w tr).0 ≡ false
        → ((j : List Text) → copies w₁ j ≡ copies (Redirector.start executor w tr).1 j)
        → words_eq k (words (Redirector.reset_proxy_rule tr)) ≡ false
        → copies (Redirector.stop executor w₁ tr).1 k ≡ copies w k
    stop-start w tr w₁ k h₁ same other = (stop_after_start w tr w₁ k h₁ same).0 other

    -- A start of the redirector with no error and a stop after it with no error, in any state that
    -- has the rules of the first, leave one copy of the reset rule if there was none before, and
    -- else as many as there were; where the iptables binary obeys Netfilter and deletes what is
    -- there.
    pub stop-start_reset :
        (w : W) (tr : TrafficRedirectionSpec) (w₁ : W)
        → is_some (Redirector.start executor w tr).0 ≡ false
        → ((j : List Text) → copies w₁ j ≡ copies (Redirector.start executor w tr).1 j)
        → is_some (Redirector.stop executor w₁ tr).0 ≡ false
        → copies (Redirector.stop executor w₁ tr).1 (words (Redirector.reset_proxy_rule tr))
          ≡ max 1 (copies w (words (Redirector.reset_proxy_rule tr)))
    stop-start_reset w tr w₁ h₁ same h₂ = (stop_after_start w tr w₁ [] h₁ same).1 h₂
