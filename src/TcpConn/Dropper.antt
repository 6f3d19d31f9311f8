-- ===== src/TcpConn/Dropper.antt =====
-- pkg/agent/tcpconn/dropper.go: which packets are dropped. Reading a packet, the text of its addresses, the
-- hash and the conversion of 100 times the rate to a uint32 are parameters.
use xk6_disruptor.Prelude.{
  ℕ, ◌%◌, Bool, false, not, Option, none, some, ◌++◌, Text, codes, show_ℕ, ltb, if◌then◌else◌,
}

pub record Connection : Type 0 where
  pub source_ip : Text
  pub source_port : ℕ
  pub destination_ip : Text
  pub destination_port : ℕ

-- A packet with an IP layer and a TCP layer has the connection that it belongs to.
pub record Packets (P : Type 0) : Type 0 where
  pub has_ip : P → Bool
  pub connection : P → Option Connection

unfoldable pub four_tuple : Connection → Text
four_tuple c =
    c.source_ip
    ++ (codes ":"
        ++ (show_ℕ c.source_port
            ++ (codes ":" ++ (c.destination_ip ++ (codes ":" ++ show_ℕ c.destination_port)))))

module _ {P : Type 0} (packets : Packets P) (crc32 : Text → ℕ) (threshold : ℕ) where
  unfoldable pub drop_packet : P → Bool
  unfolding four_tuple
  drop_packet p = if not (packets.has_ip p) then false else (elim (packets.connection p) [
    | none ↦ false
    | some c ↦ ltb (crc32 (four_tuple c) % 100) threshold
  ])
