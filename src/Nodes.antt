-- ===== src/Nodes.antt =====
-- pkg/kubernetes/helpers/nodes.go and pkg/disruptors/node.go: nodes that are drained, tainted, or put
-- under stress by a privileged pod.
pub mod Api
pub mod Helper
pub mod Disruptor
pub mod Eviction
pub mod Laws
pub mod Taints
pub mod Drain
