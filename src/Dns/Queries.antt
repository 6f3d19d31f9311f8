-- ===== src/Dns/Queries.antt =====
-- pkg/agent/dns/proxy.go with cmd/agent/commands/dns.go: what a query is answered, and what the disruptor
-- leaves on the machine.
use xk6_disruptor.Prelude.{
  ℕ, ◌≡◌, refl, sym, ◌∙◌, inl, inr, ◌&&◌, Option, none, some, List, ◌∷◌, arith, Text, wrap, ok, err,
  if◌then◌else◌,
}
use xk6_disruptor.Prelude.Floats.{Floats}
use xk6_disruptor.Iptables.{Executor}
use xk6_disruptor.Iptables.Netfilter.{Netfilter, DeletesPresent}
use xk6_disruptor.Iptables.Tracking.{AllWellFormed}
use xk6_disruptor.Iptables.Scoped.{with_rules_restores}
use xk6_disruptor.Dns.Proxy.{
  Config, lookup, Ip, name_error, authoritative, record_of, respond_with_spoof, forward_query,
  handle_query, Stopped, start, dns_rules, apply_dns,
}
use xk6_disruptor.Dns.Spoof.{parse_spoof_entries, bad_entry}
use xk6_disruptor.Dns.Entries.{last_address, spoof_entries_exact}

module _ {F M : Type 0} (floats : Floats F) (parse_ip : Text → Option Ip)
    (exchange : Text → Option M) where
  reads_last :
      (entries : List Text) (m : List (Text × Text)) (d : Text)
      → parse_spoof_entries entries ≡ ok m
      → lookup d m ≡ last_address d entries
  reads_last entries m d made = elim (spoof_entries_exact entries) [
    | inl (bad, e) ↦ absurd (let f : err bad_entry ≡ ok m = sym e ∙ made in cc)
    | inr (n, good, e, reads) ↦
        let f : ok n ≡ ok m = sym e ∙ made in let same : n ≡ m = cc in rw (sym same) (reads d)
  ]

  -- A query for a domain that the entries give an address gets that address, whatever the error rate and the
  -- upstream are.
  pub spoofed_query :
      (c : Config F) (entries : List Text) (qname ip_text : Text) (ip : Ip) (more : List Text)
      (float32 : F)
      → parse_spoof_entries entries ≡ ok c.spoof
      → last_address qname entries ≡ some ip_text
      → parse_ip ip_text ≡ some ip
      → handle_query floats parse_ip exchange c (qname ∷ more) float32
        ≡ authoritative (record_of qname ip)
  unfolding handle_query respond_with_spoof
  spoofed_query c entries qname ip_text ip more float32 made last parsed =
      rw (handle_query, reads_last entries c.spoof qname made, last, respond_with_spoof, parsed)
        refl

  -- A query for any other domain gets NXDOMAIN when the drawn number is within a positive error rate, and is
  -- forwarded otherwise.
  pub other_query :
      (c : Config F) (entries : List Text) (qname : Text) (more : List Text) (float32 : F)
      → parse_spoof_entries entries ≡ ok c.spoof
      → last_address qname entries ≡ none
      → handle_query floats parse_ip exchange c (qname ∷ more) float32 ≡ (
          if floats.less floats.zero_f c.error_rate && floats.at_most float32 c.error_rate
          then name_error
          else forward_query floats parse_ip exchange c)
  unfolding handle_query
  other_query c entries qname more float32 made last =
      rw (handle_query, reads_last entries c.spoof qname made, last) refl

rules-AllWellFormed : AllWellFormed dns_rules
unfolding dns_rules
rules-AllWellFormed = omega arith

-- However the proxy stops, the disruptor leaves every rule as it found it, where the iptables binary obeys
-- Netfilter and deletes what is there.
pub dns_restores :
    {W : Type 0} {executor : Executor W} {copies : W → List Text → ℕ}
    (net : Netfilter executor copies) (deletes : DeletesPresent executor copies) (w : W)
    (stopped : Stopped) (k : List Text)
    → copies (apply_dns executor w stopped).1 k ≡ copies w k
unfolding apply_dns
dns_restores net deletes w stopped k =
    with_rules_restores net deletes w dns_rules (wrap "setting up DNS redirect: %w") (start stopped)
      k rules-AllWellFormed
