-- ===== src/Grpc.antt =====
-- pkg/agent/protocol/grpc: the proxy that injects faults in gRPC requests.
pub mod Handler
pub mod Relay
pub mod Forwarding
pub mod Pumps
