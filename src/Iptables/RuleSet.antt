-- ===== src/Iptables/RuleSet.antt =====
-- pkg/iptables/iptables.go: a set of rules that remembers what it added.
use xk6_disruptor.Prelude.{Option, none, some, List, [], ◌∷◌, ◌++◌, Error, is_some, if◌then◌else◌}
use xk6_disruptor.Iptables
use xk6_disruptor.Iptables.{Executor}
use xk6_disruptor.Iptables.Rule.{Rule}

pub record RuleSet : Type 0 where
  pub rules : List Rule

abbrev pub new_rule_set : RuleSet
new_rule_set = record { rules = [] }

abbrev pub to_list {ℓ} : {A : Type ℓ} → Option A → List A
to_list none = []
to_list (some a) = a ∷ []

-- errors[0], or nil where there is none.
abbrev pub first_error : List Error → Option Error
first_error [] = none
first_error (e ∷ es) = some e

module _ {W : Type 0} (executor : Executor W) where
  unfoldable pub add : W → RuleSet → Rule → Option Error × RuleSet × W
  add w s r =
      let (e, w') = Iptables.add executor w r in
      if is_some e then (e, s, w') else (none, record s { rules = s.rules ++ r ∷ [] }, w')

  -- The loop of `Remove`: a rule that iptables refuses to delete is kept.
  unfoldable pub remove_loop : W → List Rule → List Error → List Rule → List Error × List Rule × W
  remove_loop w [] errors remaining = (errors, remaining, w)
  remove_loop w (r ∷ rs) errors remaining =
      let (e, w') = Iptables.remove executor w r in
      remove_loop w' rs (errors ++ to_list e) (if is_some e then remaining ++ r ∷ [] else remaining)

  unfoldable pub remove : W → RuleSet → Option Error × RuleSet × W
  unfolding remove_loop
  remove w s =
      let (errors, remaining, w') = remove_loop w s.rules [] [] in
      (first_error errors, record s { rules = remaining }, w')

  -- The loop of a disruptor that adds its rules one by one and stops at the first error.
  unfoldable pub add_all : W → RuleSet → List Rule → Option Error × RuleSet × W
  unfolding add
  add_all w s [] = (none, s, w)
  add_all w s (r ∷ rs) =
      let (e, s', w') = add w s r in
      let rest = add_all w' s' rs in if is_some e then (e, s', w') else rest
