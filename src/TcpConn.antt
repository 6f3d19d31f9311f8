-- ===== src/TcpConn.antt =====
-- pkg/agent/tcpconn: the disruptor that drops TCP connections.
pub mod Disruptor
pub mod Dropper
pub mod Safety
