-- ===== src/Protocol.antt =====
-- pkg/agent/protocol: disruptors that run a proxy and redirect the traffic to it.
pub mod MetricMap
pub mod Counters
pub mod Redirector
pub mod Redirection
pub mod Disruptor
pub mod Lifecycle
