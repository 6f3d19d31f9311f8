-- ===== src/Protocol/Redirector.antt =====
-- pkg/agent/protocol/redirector.go: the rules that send the traffic of a port to the proxy.
use xk6_disruptor.Prelude.{
  ℕ, ◌||◌, Option, none, List, [], ◌∷◌, ◌++◌, Text, codes, show_ℕ, Error, message, wrap_err,
  is_some, Result, ok, ◌>>◌, fail_if, ◌==◌, if◌then◌else◌,
}
use xk6_disruptor.Iptables
use xk6_disruptor.Iptables.{Executor}
use xk6_disruptor.Iptables.Rule.{Rule}
use xk6_disruptor.Iptables.RuleSet.{to_list, first_error}

pub record TrafficRedirectionSpec : Type 0 where
  pub destination_port : ℕ
  pub redirect_port : ℕ

abbrev pub ports_missing : Error
ports_missing = message "DestinationPort and RedirectPort must be specified"

abbrev pub ports_equal : Error
ports_equal = message "DestinationPort (%d) and RedirectPort (%d) must be different"

unfoldable pub new_traffic_redirector : TrafficRedirectionSpec → Result TrafficRedirectionSpec
new_traffic_redirector tr = do
  fail_if (tr.destination_port == 0 || tr.redirect_port == 0) ports_missing
  fail_if (tr.destination_port == tr.redirect_port) ports_equal
  ok tr

-- fmt.Sprintf("-p tcp --dport %d ", port), and fmt.Sprintf("-j REDIRECT --to-port %d", port).
abbrev pub to_destination : ℕ → Text → Text
to_destination port rest = codes "-p tcp --dport " ++ (show_ℕ port ++ (codes " " ++ rest))

abbrev redirect_to : ℕ → Text
redirect_to port = codes "-j REDIRECT --to-port " ++ show_ℕ port

abbrev reset_established : Text
reset_established = codes "-m state --state ESTABLISHED -j REJECT --reject-with tcp-reset"

unfoldable pub redirect_local_rule : TrafficRedirectionSpec → Rule
redirect_local_rule tr = record {
  table = codes "nat";
  chain = codes "OUTPUT";
  args =
      codes "-s 127.0.0.0/8 -d 127.0.0.1/32 "
      ++ to_destination tr.destination_port (redirect_to tr.redirect_port);
}

unfoldable pub redirect_external_rule : TrafficRedirectionSpec → Rule
redirect_external_rule tr = record {
  table = codes "nat";
  chain = codes "PREROUTING";
  args = codes "! -i lo " ++ to_destination tr.destination_port (redirect_to tr.redirect_port);
}

unfoldable pub reset_local_rule : TrafficRedirectionSpec → Rule
reset_local_rule tr = record {
  table = codes "filter";
  chain = codes "INPUT";
  args =
      codes "-i lo -s 127.0.0.0/8 -d 127.0.0.1/32 "
      ++ to_destination tr.destination_port reset_established;
}

unfoldable pub reset_external_rule : TrafficRedirectionSpec → Rule
reset_external_rule tr = record {
  table = codes "filter";
  chain = codes "INPUT";
  args = codes "! -i lo " ++ to_destination tr.destination_port reset_established;
}

unfoldable pub rules : TrafficRedirectionSpec → List Rule
unfolding redirect_local_rule redirect_external_rule reset_local_rule reset_external_rule
rules tr =
    redirect_local_rule tr
    ∷ redirect_external_rule tr
    ∷ reset_local_rule tr
    ∷ reset_external_rule tr
    ∷ []

unfoldable pub reset_proxy_rule : TrafficRedirectionSpec → Rule
reset_proxy_rule tr = record {
  table = codes "filter";
  chain = codes "INPUT";
  args = to_destination tr.redirect_port (codes "-j REJECT --reject-with tcp-reset");
}

module _ {W : Type 0} (executor : Executor W) where
  -- The loop of `Start`, which stops at the first error.
  unfoldable pub add_rules : W → List Rule → Option Error × W
  add_rules w [] = (none, w)
  add_rules w (r ∷ rs) =
      let (e, w') = Iptables.add executor w r in
      let rest = add_rules w' rs in if is_some e then (wrap_err "adding rules: %w" e, w') else rest

  unfoldable pub start : W → TrafficRedirectionSpec → Option Error × W
  unfolding add_rules
  start w tr =
      let (_, w') = Iptables.remove executor w (reset_proxy_rule tr) in add_rules w' (rules tr)

  -- The loop of `Stop`, which goes on after an error.
  unfoldable pub remove_rules : W → List Rule → List Error → List Error × W
  remove_rules w [] errors = (errors, w)
  remove_rules w (r ∷ rs) errors =
      let (e, w') = Iptables.remove executor w r in remove_rules w' rs (errors ++ to_list e)

  unfoldable pub stop : W → TrafficRedirectionSpec → Option Error × W
  unfolding remove_rules
  stop w tr =
      let (errors, w') = remove_rules w (rules tr) [] in
      let (e, w'') = Iptables.add executor w' (reset_proxy_rule tr) in
      (first_error (errors ++ to_list e), w'')
