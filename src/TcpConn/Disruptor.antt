-- ===== src/TcpConn/Disruptor.antt =====
-- pkg/agent/tcpconn/disruptor.go: the rules of the disruptor, and Apply. The library nfqueue is a parameter:
-- the errors that it gives.
use xk6_disruptor.Prelude.{
  ℕ, ◌+◌, ◌-◌, ◌%◌, Option, none, some, List, [], ◌∷◌, ◌++◌, codes, show_ℕ, Error, wrap,
  if◌then◌else◌, ℤ, ltb_ℤ,
}
use xk6_disruptor.Iptables.{Executor}
use xk6_disruptor.Iptables.Rule.{Rule}
use xk6_disruptor.Iptables.Scoped.{with_rules}
use xk6_disruptor.Network.Wait.{second, duration_too_short}

-- queueID and rejectMark
pub record NfqConfig : Type 0 where
  pub queue_id : ℕ
  pub reject_mark : ℕ

-- v | 0b1
abbrev or_one : ℕ → ℕ
or_one v = v - v % 2 + 1

-- randomNFQConfig at the two numbers that rand.Int31 gives: a uint16 and a uint32.
unfoldable pub random_nfq_config : ℕ → ℕ → NfqConfig
random_nfq_config a b = record {
  queue_id = or_one (a % 65536);
  reject_mark = or_one (b % 4294967296);
}

unfoldable pub rules : ℕ → NfqConfig → List Rule
rules port c =
    record {
      table = codes "filter";
      chain = codes "INPUT";
      args =
          codes "-p tcp --dport "
          ++ (show_ℕ port
              ++ (codes " -m mark --mark "
                  ++ (show_ℕ c.reject_mark ++ codes " -j REJECT --reject-with tcp-reset")));
    }
    ∷ record {
      table = codes "filter";
      chain = codes "INPUT";
      args =
          codes "-p tcp --dport "
          ++ (show_ℕ port
              ++ (codes " -j NFQUEUE --queue-num "
                  ++ (show_ℕ c.queue_id ++ codes " --queue-bypass")));
    }
    ∷ []

-- What ends the wait: the context with its error, or an error of the queue.
pub data Wake : Type 0 where
  context_done queue_failed : Error → Wake

pub record Queue : Type 0 where
  pub open_error : Option Error
  pub register_error : Option Error
  pub wake : Wake

unfoldable pub wait : Wake → Option Error
wait (context_done e) = some e
wait (queue_failed e) = some (wrap "reading packet from NFQueue: %w" e)

-- Apply, once the rules are in place.
unfoldable pub listen : Queue → Option Error
unfolding wait
listen q = elim q.open_error [
  | some e ↦ some (wrap "creating nfqueue: %w" e)
  | none ↦ (elim q.register_error [
    | some e ↦ some (wrap "registering nqueue handlers: %w" e)
    | none ↦ wait q.wake
  ])
]

unfoldable pub apply : {W : Type 0} → Executor W → W → ℕ → NfqConfig → ℤ → Queue → Option Error × W
unfolding with_rules rules listen
apply executor w port c duration q =
    if ltb_ℤ duration second
    then (some duration_too_short, w)
    else with_rules executor w (rules port c) (λ e. e) (listen q)
