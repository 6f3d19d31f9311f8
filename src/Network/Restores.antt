-- ===== src/Network/Restores.antt =====
-- pkg/agent/network: what the two disruptors promise of the machine.
use xk6_disruptor.Prelude.{
  ℕ, ◌+◌, ◌≡◌, ap, inl, inr, false, ◌||◌, Option, none, some, List, [], ◌∷◌, arith, Text, codes,
  text_eq, is_empty, Error, is_some, Bool-cases, ℤ,
}
use xk6_disruptor.Iptables.{Executor}
use xk6_disruptor.Iptables.Rule.{Rule}
use xk6_disruptor.Iptables.RuleSet
use xk6_disruptor.Iptables.RuleSet.{RuleSet, new_rule_set}
use xk6_disruptor.Iptables.Netfilter.{Netfilter, DeletesPresent}
use xk6_disruptor.Iptables.Tracking.{
  Tracks, AllWellFormed, tracked, add_all-Tracks, add_all-AllWellFormed, add_all_success,
  remove_restores,
}
use xk6_disruptor.Network.Wait.{Wake}
use xk6_disruptor.Network.Drop
use xk6_disruptor.Network.Drop.{Filter}
use xk6_disruptor.Network.Partition
use xk6_disruptor.Network.Partition.{PartitionConfig}

drop_rules-AllWellFormed : (f : Filter) → AllWellFormed (Drop.rules f)
unfolding Drop.rules
drop_rules-AllWellFormed f = omega arith

-- The rules of a host are well formed, where the direction is known.
abbrev FormedIfAny : Option (List Rule) → Type 0
FormedIfAny none = Unit
FormedIfAny (some rs) = AllWellFormed rs

host_rules-AllWellFormed :
    (direction host : Text) → FormedIfAny (Partition.host_rules direction host)
unfolding Partition.host_rules
host_rules-AllWellFormed direction host = elim (Bool-cases (text_eq direction (codes "ingress"))) [
  | inl is_ingress ↦ rw is_ingress (omega arith)
  | inr not_ingress ↦ elim (Bool-cases (text_eq direction (codes "egress"))) [
    | inl is_egress ↦ rw (not_ingress, is_egress) (omega arith)
    | inr not_egress ↦ elim (Bool-cases (text_eq direction (codes "both") || is_empty direction)) [
      | inl is_both ↦ rw (not_ingress, not_egress, is_both) (omega arith)
      | inr unknown ↦ rw (not_ingress, not_egress, unknown) tt
    ]
  ]
]

module _ {W : Type 0} {executor : Executor W} {copies : W → List Text → ℕ}
    (net : Netfilter executor copies) where
  install-Tracks :
      (w : W) (f : Filter)
      → let (e, s, w') = Drop.install executor w f in
        Tracks net (copies w) w' s.rules × AllWellFormed s.rules
  unfolding Drop.install
  install-Tracks w f = (
    add_all-Tracks net (copies w) w new_rule_set (Drop.rules f) (drop_rules-AllWellFormed f)
        (λ k. omega arith),
    add_all-AllWellFormed executor w new_rule_set (Drop.rules f) tt (drop_rules-AllWellFormed f),
  )

  -- The set and the machine after one host.
  abbrev pub Keeps : (List Text → ℕ) → Option Error × RuleSet × W → Type 0
  Keeps base p = Tracks net base p.2 p.1.rules × AllWellFormed p.1.rules

  add_host-Tracks :
      (base : List Text → ℕ) (w : W) (s : RuleSet) (direction host : Text)
      → Keeps base (none, s, w)
      → Keeps base (Partition.add_host executor w s direction host)
  unfolding Partition.add_host
  add_host-Tracks base w s direction host h =
      go (Partition.host_rules direction host) (host_rules-AllWellFormed direction host)
    where
      go :
          (o : Option (List Rule))
          → FormedIfAny o
          → Keeps base (elim o [
            | none ↦ (some Partition.invalid_direction, s, w)
            | some rs ↦ RuleSet.add_all executor w s rs
          ])
      go none v = h
      go (some rs) v =
          (add_all-Tracks net base w s rs v h.0, add_all-AllWellFormed executor w s rs h.1 v)

  pub add_hosts-Tracks :
      (base : List Text → ℕ) (w : W) (s : RuleSet) (direction : Text) (hosts : List Text)
      → Keeps base (none, s, w)
      → Keeps base (Partition.add_hosts executor w s direction hosts)
  unfolding Partition.add_hosts
  add_hosts-Tracks base w s direction [] h = h
  add_hosts-Tracks base w s direction (host ∷ hosts) h =
      let added = add_host-Tracks base w s direction host h in
      elim (Bool-cases (is_some (Partition.add_host executor w s direction host).0)) [
        | inl refused ↦ rw refused added
        | inr accepted ↦ rw accepted (
            add_hosts-Tracks base (Partition.add_host executor w s direction host).2
              (Partition.add_host executor w s direction host).1 direction hosts added)
      ]

  -- After an installation with no error, that is, while the drop disruptor waits, the machine holds
  -- the drop rule on top of what it held before; where the iptables binary obeys Netfilter.
  pub drop_in_place :
      (w : W) (f : Filter) (k : List Text)
      → is_some (Drop.install executor w f).0 ≡ false
      → copies (Drop.install executor w f).2 k ≡ copies w k + tracked k (Drop.rules f)
  unfolding Drop.install
  drop_in_place w f k h = omega (
    arith,
    (install-Tracks w f).0 k,
    ap (tracked k) (add_all_success executor w new_rule_set (Drop.rules f) h),
  )

  module _ (deletes : DeletesPresent executor copies) where
    -- However the drop disruptor ends, it leaves every rule as it found it, where the iptables
    -- binary obeys Netfilter and deletes what is there.
    pub drop_restores :
        (w : W) (f : Filter) (duration : ℤ) (wake : Wake) (k : List Text)
        → copies (Drop.apply executor w f duration wake).1 k ≡ copies w k
    unfolding Drop.apply
    drop_restores w f duration wake k =
        let (tracks, formed) = install-Tracks w f in
        ground (
          arith,
          (remove_restores net (copies w) (Drop.install executor w f).2
                (Drop.install executor w f).1 deletes formed tracks).2
              k,
        )

    -- However the partition disruptor ends, it leaves every rule as it found it, where the iptables
    -- binary obeys Netfilter and deletes what is there.
    pub partition_restores :
        (w : W) (c : PartitionConfig) (duration : ℤ) (wake : Wake) (k : List Text)
        → copies (Partition.apply executor w c duration wake).1 k ≡ copies w k
    unfolding Partition.apply
    partition_restores w c duration wake k =
        let (tracks, formed) =
          add_hosts-Tracks (copies w) w new_rule_set c.direction c.hosts ((λ j. omega arith), tt) in
        ground (
          arith,
          (remove_restores net (copies w) (Partition.install executor w c).2
                (Partition.install executor w c).1 deletes formed tracks).2
              k,
        )
