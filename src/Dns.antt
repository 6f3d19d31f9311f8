-- ===== src/Dns.antt =====
-- pkg/agent/dns and cmd/agent/commands/dns.go: the proxy that injects faults in answers to DNS queries.
pub mod Proxy
pub mod Spoof
pub mod Entries
pub mod Queries
