-- ===== src/Network/Rules.antt =====
-- pkg/agent/network: what the rules of the two disruptors tell netfilter.
use xk6_disruptor.Prelude.{
  ℕ, ◌+◌, ◌≡◌, refl, sym, ap, ◌∙◌, ◌≢◌, inl, inr, true, false, Option, none, some, List, [], ◌∷◌,
  ◌++◌, map, append-nil, append_assoc, arith, Text, codes, text_eq_iff, is_empty, IsFree, split,
  split_word, show_ℕ, IsFree-show_ℕ, is_some, ◌==◌, if◌then◌else◌, Bool-cases, Option-cases, ℤ,
  ◌≤ℤ◌,
}
use xk6_disruptor.Iptables.{Executor}
use xk6_disruptor.Iptables.Rule.{Rule, words}
use xk6_disruptor.Iptables.RuleSet
use xk6_disruptor.Iptables.RuleSet.{RuleSet, new_rule_set}
use xk6_disruptor.Iptables.Netfilter.{Netfilter}
use xk6_disruptor.Iptables.Tracking.{tracked, add_all_success}
use xk6_disruptor.Network.Restores.{add_hosts-Tracks}
use xk6_disruptor.Network.Wait.{Wake, second}
use xk6_disruptor.Network.Drop
use xk6_disruptor.Network.Drop.{Filter}
use xk6_disruptor.Network.Partition
use xk6_disruptor.Network.Partition.{PartitionConfig, invalid_direction}

-- The matches that a filter asks for, each as words of its own.
abbrev protocol_words : Text → List Text
protocol_words protocol = if is_empty protocol then [] else codes "-p" ∷ protocol ∷ []

abbrev port_words : ℕ → List Text
port_words port = if port == 0 then [] else codes "--dport" ∷ show_ℕ port ∷ []

split_port :
    (port : ℕ)
    → split b' ' (Drop.with_port port (codes "-j DROP"))
      ≡ port_words port ++ codes "-j" ∷ codes "DROP" ∷ []
unfolding Drop.with_port split
split_port port = elim (Bool-cases (port == 0)) [
  | inl absent ↦ rw absent
  | inr given ↦ rw given (
      ap (λ ws. codes "--dport" ∷ ws)
        (split_word b' ' (show_ℕ port) (codes "-j DROP")
          (IsFree-show_ℕ port b' ' (inl (omega arith)))))
]

split_protocol :
    (protocol args : Text)
    → IsFree b' ' protocol
    → split b' ' (Drop.with_protocol protocol args) ≡ protocol_words protocol ++ split b' ' args
unfolding Drop.with_protocol split
split_protocol [] args h = refl
split_protocol (c ∷ cs) args h = ap (λ ws. codes "-p" ∷ ws) (split_word b' ' (c ∷ cs) args h)

-- The one rule of the drop disruptor stands in the INPUT chain of the table filter, matches the
-- protocol if one is given and the port if it is not 0, and drops; for a protocol with no blank.
pub drop_rules_words :
    (f : Filter)
    → IsFree b' ' f.protocol
    → map words (Drop.rules f)
      ≡ (codes "filter"
          ∷ codes "INPUT"
          ∷ (protocol_words f.protocol ++ (port_words f.port ++ codes "-j" ∷ codes "DROP" ∷ [])))
        ∷ []
unfolding Drop.rules words
drop_rules_words f h =
    ap (λ ws. (codes "filter" ∷ codes "INPUT" ∷ ws) ∷ [])
      (split_protocol f.protocol (Drop.with_port f.port (codes "-j DROP")) h
        ∙ ap (λ ws. protocol_words f.protocol ++ ws) (split_port f.port))

is_empty→eq : (s : Text) → is_empty s ≡ true → s ≡ []
is_empty→eq [] h = refl
is_empty→eq (c ∷ s) h = cc

abbrev or_empty : Option (List Rule) → List Rule
or_empty none = []
or_empty (some rs) = rs

-- The rules of all hosts of a list, where the direction is known.
abbrev pub all_host_rules : Text → List Text → List Rule
all_host_rules direction [] = []
all_host_rules direction (host ∷ hosts) =
    or_empty (Partition.host_rules direction host) ++ all_host_rules direction hosts

module _ {W : Type 0} (executor : Executor W) where
  add_host_success :
      (w : W) (s : RuleSet) (direction host : Text)
      → let (e, s', w') = Partition.add_host executor w s direction host in
        is_some e ≡ false → s'.rules ≡ s.rules ++ or_empty (Partition.host_rules direction host)
  unfolding Partition.add_host
  add_host_success w s direction host = elim (Option-cases (Partition.host_rules direction host)) [
    | inl unknown ↦ rw (unknown, Partition.add_host) (λ h. cc)
    | inr (rs, known) ↦ rw (known, Partition.add_host) (add_all_success executor w s rs)
  ]

  add_hosts_success :
      (w : W) (s : RuleSet) (direction : Text) (hosts : List Text)
      → let (e, s', w') = Partition.add_hosts executor w s direction hosts in
        is_some e ≡ false → s'.rules ≡ s.rules ++ all_host_rules direction hosts
  unfolding Partition.add_hosts
  add_hosts_success w s direction [] h = sym (append-nil s.rules)
  add_hosts_success w s direction (host ∷ hosts) h =
      let added = add_host_success w s direction host in
      let (e, s', w') = Partition.add_host executor w s direction host in
      elim (Bool-cases (is_some e)) [
        | inl refused ↦ absurd (let f : true ≡ false = sym refused ∙ (rw refused at h) in cc)
        | inr accepted ↦ rw accepted (
            add_hosts_success w' s' direction hosts (rw accepted at h)
            ∙ (rw (added accepted) (
                append_assoc s.rules (or_empty (Partition.host_rules direction host))
                  (all_host_rules direction hosts))))
      ]

module _ {W : Type 0} {executor : Executor W} {copies : W → List Text → ℕ}
    (net : Netfilter executor copies) where
  -- After an installation with no error, that is, while the partition disruptor waits, the machine
  -- holds the rules of every host on top of what it held before; where the iptables binary obeys
  -- Netfilter.
  pub partition_in_place :
      (w : W) (c : PartitionConfig) (k : List Text)
      → is_some (Partition.install executor w c).0 ≡ false
      → copies (Partition.install executor w c).2 k
        ≡ copies w k + tracked k (all_host_rules c.direction c.hosts)
  unfolding Partition.install
  partition_in_place w c k h = omega (
    arith,
    (add_hosts-Tracks net (copies w) w new_rule_set c.direction c.hosts ((λ j. omega arith), tt)).0
        k,
    ap (tracked k) (add_hosts_success executor w new_rule_set c.direction c.hosts h),
  )

module _ {W : Type 0} (executor : Executor W) where
  -- A direction that is none of ingress, egress, both and the empty text is refused, and no command
  -- is run; for a duration of a second or more and at least one host.
  pub partition_invalid_direction :
      (w : W) (direction host : Text) (hosts : List Text) (duration : ℤ) (wake : Wake)
      → second ≤ℤ duration
      → direction ≢ codes "ingress"
      → direction ≢ codes "egress"
      → direction ≢ codes "both"
      → direction ≢ []
      → Partition.apply executor w
          (record { direction = direction; hosts = host ∷ hosts })
          duration
          wake
        ≡ (some invalid_direction, w)
  unfolding Partition.apply Partition.host_rules RuleSet.remove
  partition_invalid_direction w direction host hosts duration wake h i e b n = ground (
    arith,
    text_eq_iff direction (codes "ingress"),
    text_eq_iff direction (codes "egress"),
    text_eq_iff direction (codes "both"),
    is_empty→eq direction,
  )
