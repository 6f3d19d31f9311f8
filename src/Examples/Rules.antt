-- ===== src/Examples/Rules.antt =====
-- The theorems on iptables rules, the network disruptors and the traffic redirection at work on a machine.
use xk6_disruptor.Prelude.{
  ◌+◌, ◌≡◌, refl, Bool, false, none, List, [], ◌∷◌, arith, Text, codes, split, canceled, ℤ, pos,
}
use xk6_disruptor.Iptables
use xk6_disruptor.Iptables.Rule.{Rule, words}
use xk6_disruptor.Iptables.RuleSet
use xk6_disruptor.Iptables.RuleSet.{RuleSet}
use xk6_disruptor.Iptables.Tracking.{tracked, AllWellFormed, remove-Tracks, remove_restores}
use xk6_disruptor.Network.Wait.{Wake}
use xk6_disruptor.Network.Drop.{Filter}
use xk6_disruptor.Network.Partition
use xk6_disruptor.Network.Partition.{PartitionConfig, invalid_direction}
use xk6_disruptor.Network.Restores.{partition_restores}
use xk6_disruptor.Protocol.Redirector
use xk6_disruptor.Protocol.Redirector.{TrafficRedirectionSpec}
use xk6_disruptor.Protocol.Redirection.{stop-start}
use xk6_disruptor.Examples.Machine.{
  Machine, copies, machine, machine-Netfilter, machine-DeletesPresent,
}

abbrev accept_all : List Text → Bool
accept_all key = false

abbrev rule_a : Rule
rule_a = record { table = codes "filter"; chain = codes "INPUT"; args = codes "-p tcp -j DROP" }

abbrev rule_set : RuleSet
rule_set = record { rules = rule_a ∷ [] }

abbrev other_rule : List Text
other_rule = codes "filter" ∷ codes "INPUT" ∷ codes "-j" ∷ codes "ACCEPT" ∷ []

-- A machine with a rule of its own besides the rule of the set.
abbrev before : Machine
before = words rule_a ∷ other_rule ∷ []

formed : AllWellFormed (rule_a ∷ [])
formed = (record { table_free = omega arith; chain_free = omega arith }, tt)

tracks : (k : List Text) → copies before k ≡ copies (other_rule ∷ []) k + tracked k (rule_a ∷ [])
unfolding copies
tracks k = ground arith

remove-Tracks_example :
    copies (RuleSet.remove (machine accept_all) before rule_set).2 (words rule_a)
    ≡ copies (other_rule ∷ []) (words rule_a)
      + tracked (words rule_a) (RuleSet.remove (machine accept_all) before rule_set).1.rules
remove-Tracks_example =
    remove-Tracks (machine-Netfilter accept_all) (copies (other_rule ∷ [])) before rule_set formed
      tracks (words rule_a)

remove_restores_example :
    let (e, s', w') = RuleSet.remove (machine accept_all) before rule_set in
    (e ≡ none) × (s'.rules ≡ []) × ((k : List Text) → copies w' k ≡ copies (other_rule ∷ []) k)
remove_restores_example =
    remove_restores (machine-Netfilter accept_all) (copies (other_rule ∷ [])) before rule_set
      (machine-DeletesPresent accept_all) formed tracks

abbrev tcp_on_80 : Filter
tcp_on_80 = record { protocol = codes "tcp"; port = 80 }

abbrev two_seconds : ℤ
two_seconds = pos 2000000000

abbrev two_hosts : PartitionConfig
two_hosts = record { direction = codes "both"; hosts = codes "10.0.0.1" ∷ codes "10.0.0.2" ∷ [] }

partition_restores_example :
    copies
      (Partition.apply
        (machine accept_all)
        before
        two_hosts
        two_seconds
        (Wake.context_done canceled)).1
      other_rule
    ≡ copies before other_rule
partition_restores_example =
    partition_restores (machine-Netfilter accept_all) (machine-DeletesPresent accept_all) before
      two_hosts two_seconds (Wake.context_done canceled) other_rule

abbrev to_proxy : TrafficRedirectionSpec
to_proxy = record { destination_port = 80; redirect_port = 8000 }

abbrev started : Machine
started = (Redirector.start (machine accept_all) before to_proxy).1

stop-start_example :
    copies (Redirector.stop (machine accept_all) started to_proxy).1 other_rule
    ≡ copies before other_rule
unfolding Redirector.start Redirector.rules Iptables.add machine split words
    Redirector.reset_proxy_rule
stop-start_example =
    stop-start (machine-Netfilter accept_all) (machine-DeletesPresent accept_all) before to_proxy
      started other_rule refl (λ j. refl) refl
