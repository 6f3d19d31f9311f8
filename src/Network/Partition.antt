-- ===== src/Network/Partition.antt =====
-- pkg/agent/network/partition.go: the disruptor that blocks the traffic with a list of hosts.
use xk6_disruptor.Prelude.{
  ◌||◌, Option, none, some, List, [], ◌∷◌, ◌++◌, Text, codes, text_eq, is_empty, Error, message,
  is_some, ◌==◌, if◌then◌else◌, length, ℤ, ltb_ℤ,
}
use xk6_disruptor.Iptables.{Executor}
use xk6_disruptor.Iptables.Rule.{Rule}
use xk6_disruptor.Iptables.RuleSet
use xk6_disruptor.Iptables.RuleSet.{RuleSet, new_rule_set}
use xk6_disruptor.Network.Wait.{Wake, wait, second, duration_too_short}

pub record PartitionConfig : Type 0 where
  pub direction : Text
  pub hosts : List Text

abbrev pub no_hosts : Error
no_hosts = message "at least one host must be specified"

abbrev pub invalid_direction : Error
invalid_direction = message "invalid direction %q: must be ingress, egress, or both"

-- Traffic from a host, and traffic to it.
unfoldable pub ingress_rule : Text → Rule
ingress_rule host = record {
  table = codes "filter";
  chain = codes "INPUT";
  args = codes "-s " ++ (host ++ codes " -j DROP");
}

unfoldable pub egress_rule : Text → Rule
egress_rule host = record {
  table = codes "filter";
  chain = codes "OUTPUT";
  args = codes "-d " ++ (host ++ codes " -j DROP");
}

-- The switch on the direction: the rules of one host, or none for a direction that is not known.
unfoldable pub host_rules : Text → Text → Option (List Rule)
unfolding ingress_rule egress_rule text_eq
host_rules direction host =
    if text_eq direction (codes "ingress")
    then some (ingress_rule host ∷ [])
    else if text_eq direction (codes "egress")
    then some (egress_rule host ∷ [])
    else if text_eq direction (codes "both") || is_empty direction
    then some (ingress_rule host ∷ egress_rule host ∷ [])
    else none

module _ {W : Type 0} (executor : Executor W) where
  -- One round of the loop over the hosts.
  unfoldable pub add_host : W → RuleSet → Text → Text → Option Error × RuleSet × W
  unfolding host_rules
  add_host w s direction host = elim (host_rules direction host) [
    | none ↦ (some invalid_direction, s, w)
    | some rs ↦ RuleSet.add_all executor w s rs
  ]

  unfoldable pub add_hosts : W → RuleSet → Text → List Text → Option Error × RuleSet × W
  unfolding add_host
  add_hosts w s direction [] = (none, s, w)
  add_hosts w s direction (host ∷ hosts) =
      let (e, s', w') = add_host w s direction host in
      let rest = add_hosts w' s' direction hosts in if is_some e then (e, s', w') else rest

  unfoldable pub install : W → PartitionConfig → Option Error × RuleSet × W
  unfolding add_hosts
  install w c = add_hosts w new_rule_set c.direction c.hosts

  unfoldable pub apply : W → PartitionConfig → ℤ → Wake → Option Error × W
  unfolding install
  apply w c duration wake =
      if length c.hosts == 0
      then (some no_hosts, w)
      else if ltb_ℤ duration second
      then (some duration_too_short, w)
      else (let (e, s, w') = install w c in
          let (_, _, w'') = RuleSet.remove executor w' s in
          if is_some e then (e, w'') else (wait wake, w''))
