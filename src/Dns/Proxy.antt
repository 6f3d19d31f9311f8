-- ===== src/Dns/Proxy.antt =====
-- pkg/agent/dns/proxy.go: NewProxy and the handler of a query; and Apply of cmd/agent/commands/dns.go. The
-- library dns is a parameter: what the upstream answers, and what ends the server.
use xk6_disruptor.Prelude.{
  ℕ, ◌&&◌, ◌||◌, Option, none, some, List, [], ◌∷◌, ◌++◌, Text, codes, text_eq, is_empty, show_ℕ,
  Error, message, wrap, Result, ok, ◌>>◌, fail_if, if◌then◌else◌,
}
use xk6_disruptor.Prelude.Floats.{Floats}
use xk6_disruptor.Iptables.{Executor}
use xk6_disruptor.Iptables.Rule.{Rule}
use xk6_disruptor.Iptables.Scoped.{with_rules}

pub record Config (F : Type 0) : Type 0 where
  pub listen_addr : Text
  pub upstream_addr : Text
  pub error_rate : F
  pub spoof : List (Text × Text)

-- The value of a key in a map.
unfoldable pub lookup : Text → List (Text × Text) → Option Text
lookup key [] = none
lookup key ((k, v) ∷ m) = if text_eq k key then some v else lookup key m

-- net.ParseIP, with To4: the address of four or of sixteen bytes.
pub data Ip : Type 0 where
  v4 v6 : Text → Ip

pub data Record : Type 0 where
  a aaaa : Text → Text → Record

-- A reply to a query. The reply of the upstream is passed on as it is.
pub data Reply (M : Type 0) : Type 0 where
  server_failure name_error : Reply M
  authoritative : Record → Reply M
  upstream : M → Reply M

unfoldable pub new_dns_proxy : {F : Type 0} → Floats F → Config F → Result (Config F)
new_dns_proxy floats c =
    fail_if (is_empty c.listen_addr) (message "listen address is required")
    >> fail_if (is_empty c.upstream_addr) (message "upstream DNS address is required")
    >> fail_if (floats.less c.error_rate floats.zero_f || floats.less floats.one_f c.error_rate)
        (message "error rate must be in the range [0.0, 1.0]")
    >> ok c

unfoldable pub record_of : Text → Ip → Record
record_of name (v4 ip) = a name ip
record_of name (v6 ip) = aaaa name ip

module _ {F M : Type 0} (floats : Floats F) (parse_ip : Text → Option Ip)
    (exchange : Text → Option M) where
  unfoldable pub respond_with_spoof : Text → Text → Reply M
  unfolding record_of
  respond_with_spoof name ip_str = elim (parse_ip ip_str) [
    | none ↦ server_failure
    | some ip ↦ authoritative (record_of name ip)
  ]

  unfoldable pub forward_query : Config F → Reply M
  forward_query c = elim (exchange c.upstream_addr) [
    | none ↦ server_failure
    | some resp ↦ upstream resp
  ]

  -- The names that a query asks for, and the number drawn for it.
  unfoldable pub handle_query : Config F → List Text → F → Reply M
  unfolding respond_with_spoof forward_query lookup
  handle_query c [] float32 = server_failure
  handle_query c (qname ∷ more) float32 = elim (lookup qname c.spoof) [
    | some ip ↦ respond_with_spoof qname ip
    | none ↦
        if floats.less floats.zero_f c.error_rate && floats.at_most float32 c.error_rate
        then name_error
        else forward_query c
  ]

-- Start: the error with which the server stopped, unless the context ended first.
pub data Stopped : Type 0 where
  context_done : Stopped
  server_stopped : Option Error → Stopped

unfoldable pub start : Stopped → Option Error
start context_done = none
start (server_stopped e) = e

abbrev pub dns_proxy_port : ℕ
dns_proxy_port = 5353

abbrev pub dns_target_port : ℕ
dns_target_port = 53

abbrev pub redirect_args : Text
redirect_args =
    codes "-p udp --dport "
    ++ (show_ℕ dns_target_port ++ (codes " -j REDIRECT --to-port " ++ show_ℕ dns_proxy_port))

unfoldable pub dns_rules : List Rule
dns_rules =
    record { table = codes "nat"; chain = codes "OUTPUT"; args = redirect_args }
    ∷ record { table = codes "nat"; chain = codes "PREROUTING"; args = redirect_args }
    ∷ []

-- dnsDisruptor.Apply; the error of an addition is wrapped.
unfoldable pub apply_dns : {W : Type 0} → Executor W → W → Stopped → Option Error × W
unfolding with_rules dns_rules start
apply_dns executor w stopped =
    with_rules executor w dns_rules (wrap "setting up DNS redirect: %w") (start stopped)
