-- ===== src/Agent.antt =====
-- pkg/agent/agent.go and pkg/runtime/profiler: how an agent starts, runs a disruption and stops.
pub mod Profiler
pub mod Probes
pub mod Lifecycle
pub mod Safety
