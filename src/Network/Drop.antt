-- ===== src/Network/Drop.antt =====
-- pkg/agent/network/disruptor.go: the disruptor that drops packets by port and protocol.
use xk6_disruptor.Prelude.{
  ℕ, Option, some, List, [], ◌∷◌, ◌++◌, Text, codes, is_empty, show_ℕ, Error, is_some, ◌==◌,
  if◌then◌else◌, ℤ, ltb_ℤ,
}
use xk6_disruptor.Iptables.{Executor}
use xk6_disruptor.Iptables.Rule.{Rule}
use xk6_disruptor.Iptables.RuleSet
use xk6_disruptor.Iptables.RuleSet.{RuleSet, new_rule_set}
use xk6_disruptor.Network.Wait.{Wake, wait, second, duration_too_short}

pub record Filter : Type 0 where
  pub protocol : Text
  pub port : ℕ

-- fmt.Sprintf("--dport %d %s", port, args), where a port is given.
unfoldable pub with_port : ℕ → Text → Text
with_port port args =
    if port == 0 then args else codes "--dport " ++ (show_ℕ port ++ (codes " " ++ args))

-- fmt.Sprintf("-p %s %s", protocol, args), where a protocol is given.
unfoldable pub with_protocol : Text → Text → Text
with_protocol protocol args =
    if is_empty protocol then args else codes "-p " ++ (protocol ++ (codes " " ++ args))

unfoldable pub rules : Filter → List Rule
unfolding with_port with_protocol
rules f =
    record {
      table = codes "filter";
      chain = codes "INPUT";
      args = with_protocol f.protocol (with_port f.port (codes "-j DROP"));
    }
    ∷ []

module _ {W : Type 0} (executor : Executor W) where
  -- What is in place while the disruptor waits: the error of an addition, the set, the machine.
  unfoldable pub install : W → Filter → Option Error × RuleSet × W
  install w f = RuleSet.add_all executor w new_rule_set (rules f)

  unfoldable pub apply : W → Filter → ℤ → Wake → Option Error × W
  unfolding install
  apply w f duration wake =
      if ltb_ℤ duration second
      then (some duration_too_short, w)
      else (let (e, s, w') = install w f in
          let (_, _, w'') = RuleSet.remove executor w' s in
          if is_some e then (e, w'') else (wait wake, w''))
