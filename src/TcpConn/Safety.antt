-- ===== src/TcpConn/Safety.antt =====
-- pkg/agent/tcpconn: what the disruptor leaves on the machine, how it ends, and what it drops.
use xk6_disruptor.Prelude.{
  ℕ, ◌≤◌, ◌<◌, ◌≡◌, refl, inl, inr, true, false, some, List, arith, Text, is_some, Bool-cases,
  Option-cases, ℤ, ltb_ℤ,
}
use xk6_disruptor.Iptables.{Executor}
use xk6_disruptor.Iptables.RuleSet
use xk6_disruptor.Iptables.RuleSet.{new_rule_set}
use xk6_disruptor.Iptables.Netfilter.{Netfilter, DeletesPresent}
use xk6_disruptor.Iptables.Tracking.{AllWellFormed}
use xk6_disruptor.Iptables.Scoped.{with_rules, with_rules_restores}
use xk6_disruptor.TcpConn.Disruptor.{
  NfqConfig, random_nfq_config, rules, Wake, context_done, queue_failed, Queue, wait, listen, apply,
}
use xk6_disruptor.TcpConn.Dropper.{Connection, Packets, drop_packet}
use xk6_disruptor.Network.Wait.{second}

rules-AllWellFormed : (port : ℕ) (c : NfqConfig) → AllWellFormed (rules port c)
unfolding rules
rules-AllWellFormed port c = omega arith

listen_fails : (q : Queue) → is_some (listen q) ≡ true
unfolding listen wait
listen_fails q = elim (Option-cases q.open_error) [
  | inr (e, n) ↦ rw (listen, n) refl
  | inl n ↦ elim (Option-cases q.register_error) [
    | inr (e, m) ↦ rw (listen, n, m) refl
    | inl m ↦ rw (listen, n, m) (ends q.wake)
  ]
]
  where
    ends : (x : Wake) → is_some (wait x) ≡ true
    ends (context_done e) = refl
    ends (queue_failed e) = refl

-- Apply of the TCP connection disruptor always reports an error, also when the duration of the
-- fault has passed and nothing failed.
pub tcp_apply_fails :
    {W : Type 0} (executor : Executor W) (w : W) (port : ℕ) (c : NfqConfig) (duration : ℤ)
    (q : Queue)
    → is_some (apply executor w port c duration q).0 ≡ true
unfolding apply with_rules
tcp_apply_fails executor w port c duration q = elim (Bool-cases (ltb_ℤ duration second)) [
  | inl short ↦ rw short refl
  | inr long ↦ elim (Option-cases (RuleSet.add_all executor w new_rule_set (rules port c)).0) [
    | inr (e, refused) ↦ rw (long, with_rules, refused) refl
    | inl added ↦ rw (long, with_rules, added) (listen_fails q)
  ]
]

-- However the disruptor ends, it leaves every rule as it found it, where the iptables binary obeys Netfilter
-- and deletes what is there.
pub tcp_restores :
    {W : Type 0} {executor : Executor W} {copies : W → List Text → ℕ}
    (net : Netfilter executor copies) (deletes : DeletesPresent executor copies) (w : W) (port : ℕ)
    (c : NfqConfig) (duration : ℤ) (q : Queue) (k : List Text)
    → copies (apply executor w port c duration q).1 k ≡ copies w k
unfolding apply
tcp_restores {W} {executor} {copies} net deletes w port c duration q k =
    elim (Bool-cases (ltb_ℤ duration second)) [
      | inl short ↦ rw short refl
      | inr long ↦ rw long (
          with_rules_restores net deletes w (rules port c) (λ e. e) (listen q) k
            (rules-AllWellFormed port c))
    ]

-- The numbers drawn for the queue and the mark are a uint16 and a uint32, and not zero.
pub config_in_range :
    (a b : ℕ)
    → let c = random_nfq_config a b in
      (1 ≤ c.queue_id) × (c.queue_id < 65536) × (1 ≤ c.reject_mark) × (c.reject_mark < 4294967296)
unfolding random_nfq_config
config_in_range a b = (omega arith, omega arith, omega arith, omega arith)

-- A packet of a TCP connection is never dropped at a threshold of 0, and always at one of 100 or more.
pub drop_extremes :
    {P : Type 0} (packets : Packets P) (crc32 : Text → ℕ) (threshold : ℕ) (p : P) (c : Connection)
    → packets.has_ip p ≡ true
    → packets.connection p ≡ some c
    → (threshold ≡ 0 → drop_packet packets crc32 threshold p ≡ false)
      × (100 ≤ threshold → drop_packet packets crc32 threshold p ≡ true)
unfolding drop_packet
drop_extremes packets crc32 threshold p c ip conn =
    rw (ip, conn) (λ e. ground arith, λ e. ground arith)
