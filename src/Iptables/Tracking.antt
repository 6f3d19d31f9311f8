-- ===== src/Iptables/Tracking.antt =====
-- pkg/iptables/iptables.go: what a rule set promises. The machine holds what it held before, and
-- on top of it the rules that the set remembers.
use xk6_disruptor.Prelude.{
  ℕ, ◌+◌, ◌<◌, ◌≡◌, refl, sym, ap, ◌∙◌, ◌↔◌, inl, inr, true, false, none, List, [], ◌∷◌, ◌++◌,
  append-nil, append_assoc, arith, Text, words_eq_refl, Error, is_some, if◌then◌else◌, Bool-cases,
  length, length-append, All, All-append,
}
use xk6_disruptor.Iptables
use xk6_disruptor.Iptables.{Executor}
use xk6_disruptor.Iptables.Rule.{Rule, IsWellFormed, words}
use xk6_disruptor.Iptables.RuleSet
use xk6_disruptor.Iptables.RuleSet.{RuleSet, new_rule_set, to_list, first_error}
use xk6_disruptor.Iptables.Netfilter.{
  Netfilter, DeletesPresent, one_if, copies-add, copies-remove, remove_accepted,
}

-- Two lists of one length are empty together.
paired :
    (es : List Error) (rs : List Rule) → length es ≡ length rs → (first_error es ≡ none) ↔ (rs ≡ [])
paired [] [] h = (λ _. refl, λ _. refl)
paired [] (r ∷ rs) h = absurd (omega arith)
paired (e ∷ es) [] h = absurd (omega arith)
paired (e ∷ es) (r ∷ rs) h = (λ p. cc, λ p. cc)

-- The copies of a rule among the rules of a list.
abbrev pub tracked : List Text → List Rule → ℕ
tracked k [] = 0
tracked k (r ∷ rs) = one_if k (words r) + tracked k rs

pub tracked-append :
    (k : List Text) (xs ys : List Rule) → tracked k (xs ++ ys) ≡ tracked k xs + tracked k ys
tracked-append k [] ys = omega arith
tracked-append k (x ∷ xs) ys = omega (arith, tracked-append k xs ys)

abbrev pub AllWellFormed : List Rule → Type 0
AllWellFormed = All IsWellFormed

module _ {W : Type 0} {executor : Executor W} {copies : W → List Text → ℕ}
    (net : Netfilter executor copies) where
  -- `base` is what the machine holds besides the rules of the set.
  abbrev pub Tracks : (List Text → ℕ) → W → List Rule → Type 0
  Tracks base w rs = (k : List Text) → copies w k ≡ base k + tracked k rs

  -- Adding a rule, refused or not, leaves the machine with the base and the rules of the set.
  pub add-Tracks :
      (base : List Text → ℕ) (w : W) (s : RuleSet) (r : Rule)
      → IsWellFormed r
      → Tracks base w s.rules
      → let (e, s', w') = RuleSet.add executor w s r in Tracks base w' s'.rules
  unfolding RuleSet.add
  add-Tracks base w s r v h k =
      ground (arith, copies-add net w r v k, h k, tracked-append k s.rules (r ∷ []))

  pub add_all-Tracks :
      (base : List Text → ℕ) (w : W) (s : RuleSet) (rs : List Rule)
      → AllWellFormed rs
      → Tracks base w s.rules
      → let (e, s', w') = RuleSet.add_all executor w s rs in Tracks base w' s'.rules
  unfolding RuleSet.add_all
  add_all-Tracks base w s [] v h = h
  add_all-Tracks base w s (r ∷ rs) v h =
      let added = add-Tracks base w s r v.0 h in
      elim (Bool-cases (is_some (RuleSet.add executor w s r).0)) [
        | inl refused ↦ rw refused added
        | inr accepted ↦ rw accepted (
            add_all-Tracks base (RuleSet.add executor w s r).2 (RuleSet.add executor w s r).1 rs v.1
              added)
      ]

  remove_loop-Tracks :
      (base : List Text → ℕ) (w : W) (rs : List Rule) (errors : List Error) (remaining : List Rule)
      → AllWellFormed rs
      → Tracks base w (remaining ++ rs)
      → let (errors', remaining', w') = RuleSet.remove_loop executor w rs errors remaining in
        Tracks base w' remaining'
  unfolding RuleSet.remove_loop
  remove_loop-Tracks base w [] errors remaining v h = λ k. rw (append-nil remaining) at (h k)
  remove_loop-Tracks base w (r ∷ rs) errors remaining v h =
      remove_loop-Tracks base (Iptables.remove executor w r).1 rs
        (errors ++ to_list (Iptables.remove executor w r).0)
        (if is_some (Iptables.remove executor w r).0 then remaining ++ r ∷ [] else remaining) v.1
        λ k. ground (
          arith,
          h k,
          copies-remove net w r v.0 k,
          tracked-append k remaining (r ∷ rs),
          tracked-append k remaining rs,
          tracked-append k (remaining ++ r ∷ []) rs,
          tracked-append k remaining (r ∷ []),
        )

  -- Where the iptables binary obeys Netfilter, and the machine holds a base and the well-formed
  -- rules of the set, it holds after Remove, whatever was refused, the base and the rules still in
  -- the set.
  pub remove-Tracks :
      (base : List Text → ℕ) (w : W) (s : RuleSet)
      → AllWellFormed s.rules
      → Tracks base w s.rules
      → let (e, s', w') = RuleSet.remove executor w s in Tracks base w' s'.rules
  unfolding RuleSet.remove
  remove-Tracks base w s v h = remove_loop-Tracks base w s.rules [] [] v h

  remove_loop_accepted :
      (base : List Text → ℕ) (w : W) (rs : List Rule)
      → DeletesPresent executor copies
      → AllWellFormed rs
      → Tracks base w rs
      → let (errors, remaining, w') = RuleSet.remove_loop executor w rs [] [] in
        (errors ≡ []) × (remaining ≡ [])
  unfolding RuleSet.remove_loop
  remove_loop_accepted base w [] d v h = (refl, refl)
  remove_loop_accepted base w (r ∷ rs) d v h =
      let present : 0 < copies w (words r) = ground (arith, h (words r), words_eq_refl (words r)) in
      let accepted = remove_accepted executor copies d w r v.0 present in
      let rest : Tracks base (Iptables.remove executor w r).1 rs =
        λ k. ground (arith, h k, copies-remove net w r v.0 k, accepted) in
      rw (accepted, RuleSet.remove_loop)
        (remove_loop_accepted base (Iptables.remove executor w r).1 rs d v.1 rest)

  -- On a machine that holds a base and the well-formed rules of the set, where the iptables binary
  -- obeys Netfilter and deletes what is there, Remove succeeds, forgets every rule, and leaves the
  -- machine with the base alone.
  pub remove_restores :
      (base : List Text → ℕ) (w : W) (s : RuleSet)
      → DeletesPresent executor copies
      → AllWellFormed s.rules
      → Tracks base w s.rules
      → let (e, s', w') = RuleSet.remove executor w s in
        (e ≡ none) × (s'.rules ≡ []) × ((k : List Text) → copies w' k ≡ base k)
  unfolding RuleSet.remove
  remove_restores base w s d v h =
      let gone = remove_loop_accepted base w s.rules d v h in
      let held = remove_loop-Tracks base w s.rules [] [] v h in
      (ap first_error gone.0, gone.1, λ k. omega (arith, held k, ap (tracked k) gone.1))

module _ {W : Type 0} (executor : Executor W) where
  length-remove_loop :
      (w : W) (rs : List Rule) (errors : List Error) (remaining : List Rule)
      → length errors ≡ length remaining
      → let (errors', remaining', w') = RuleSet.remove_loop executor w rs errors remaining in
        length errors' ≡ length remaining'
  unfolding RuleSet.remove_loop
  length-remove_loop w [] errors remaining h = h
  length-remove_loop w (r ∷ rs) errors remaining h =
      length-remove_loop (Iptables.remove executor w r).1 rs
        (errors ++ to_list (Iptables.remove executor w r).0)
        (if is_some (Iptables.remove executor w r).0 then remaining ++ r ∷ [] else remaining)
        (ground (
          arith,
          length-append errors (to_list (Iptables.remove executor w r).0),
          length-append remaining (r ∷ []),
        ))

  -- Remove returns nil exactly when the set is empty afterwards.
  pub remove_error_iff :
      (w : W) (s : RuleSet)
      → let (e, s', w') = RuleSet.remove executor w s in (e ≡ none) ↔ (s'.rules ≡ [])
  unfolding RuleSet.remove
  remove_error_iff w s =
      paired (RuleSet.remove_loop executor w s.rules [] []).0
        (RuleSet.remove_loop executor w s.rules [] []).1 (length-remove_loop w s.rules [] [] refl)

  add-AllWellFormed :
      (w : W) (s : RuleSet) (r : Rule)
      → AllWellFormed s.rules
      → IsWellFormed r
      → AllWellFormed (RuleSet.add executor w s r).1.rules
  unfolding RuleSet.add
  add-AllWellFormed w s r hs hr = elim (Bool-cases (is_some (Iptables.add executor w r).0)) [
    | inl refused ↦ rw refused hs
    | inr accepted ↦ rw accepted (All-append IsWellFormed s.rules (r ∷ []) hs (hr, tt))
  ]

  add_success :
      (w : W) (s : RuleSet) (r : Rule)
      → let (e, s', w') = RuleSet.add executor w s r in
        is_some e ≡ false → s'.rules ≡ s.rules ++ r ∷ []
  unfolding RuleSet.add
  add_success w s r h = ground arith

  -- What `add_all` leaves in the set: well-formed rules, and all of the new ones where it succeeds.
  pub add_all-AllWellFormed :
      (w : W) (s : RuleSet) (rs : List Rule)
      → AllWellFormed s.rules
      → AllWellFormed rs
      → AllWellFormed (RuleSet.add_all executor w s rs).1.rules
  unfolding RuleSet.add_all
  add_all-AllWellFormed w s [] hs hrs = hs
  add_all-AllWellFormed w s (r ∷ rs) hs hrs =
      let added = add-AllWellFormed w s r hs hrs.0 in
      elim (Bool-cases (is_some (RuleSet.add executor w s r).0)) [
        | inl refused ↦ rw refused added
        | inr accepted ↦ rw accepted (
            add_all-AllWellFormed (RuleSet.add executor w s r).2 (RuleSet.add executor w s r).1 rs
              added hrs.1)
      ]

  pub add_all_success :
      (w : W) (s : RuleSet) (rs : List Rule)
      → let (e, s', w') = RuleSet.add_all executor w s rs in
        is_some e ≡ false → s'.rules ≡ s.rules ++ rs
  unfolding RuleSet.add_all
  add_all_success w s [] h = sym (append-nil s.rules)
  add_all_success w s (r ∷ rs) h = elim (Bool-cases (is_some (RuleSet.add executor w s r).0)) [
    | inl refused ↦ absurd (let e : true ≡ false = sym refused ∙ (rw refused at h) in cc)
    | inr accepted ↦ rw accepted (
        add_all_success (RuleSet.add executor w s r).2 (RuleSet.add executor w s r).1 rs
          (rw accepted at h)
        ∙ (rw (add_success w s r accepted) (append_assoc s.rules (r ∷ []) rs)))
  ]
