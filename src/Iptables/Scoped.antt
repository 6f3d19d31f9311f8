-- ===== src/Iptables/Scoped.antt =====
-- pkg/iptables/iptables.go: a rule set that is filled at the start of a call and removed by a deferred
-- function at its end, as pkg/agent/tcpconn/disruptor.go and cmd/agent/commands/dns.go use it.
use xk6_disruptor.Prelude.{ℕ, ◌≡◌, Option, none, some, List, arith, Text, Error}
use xk6_disruptor.Iptables.{Executor}
use xk6_disruptor.Iptables.Rule.{Rule}
use xk6_disruptor.Iptables.RuleSet
use xk6_disruptor.Iptables.RuleSet.{RuleSet, new_rule_set}
use xk6_disruptor.Iptables.Netfilter.{Netfilter, DeletesPresent}
use xk6_disruptor.Iptables.Tracking.{
  AllWellFormed, add_all-Tracks, add_all-AllWellFormed, remove_restores,
}

-- The error of an addition as it is reported, or what the body gives, which does not change the machine; then the rules
-- are removed.
unfoldable pub with_rules :
    {W : Type 0} → Executor W → W → List Rule → (Error → Error) → Option Error → Option Error × W
with_rules executor w rules report body =
    let (e, s, w') = RuleSet.add_all executor w new_rule_set rules in
    let (_, _, w'') = RuleSet.remove executor w' s in
    (elim e [ some f ↦ some (report f) | none ↦ body ], w'')

-- However the call ends, the machine holds as many copies of each rule as before.
pub with_rules_restores :
    {W : Type 0} {executor : Executor W} {copies : W → List Text → ℕ}
    (net : Netfilter executor copies) (deletes : DeletesPresent executor copies) (w : W)
    (rules : List Rule) (report : Error → Error) (body : Option Error) (k : List Text)
    → AllWellFormed rules
    → copies (with_rules executor w rules report body).1 k ≡ copies w k
unfolding with_rules
with_rules_restores {W} {executor} {copies} net deletes w rules report body k formed =
    let (e, s, w') = RuleSet.add_all executor w new_rule_set rules in
    let tracks = add_all-Tracks net (copies w) w new_rule_set rules formed (λ j. omega arith) in
    let all = add_all-AllWellFormed executor w new_rule_set rules tt formed in
    (remove_restores net (copies w) w' s deletes all tracks).2 k
