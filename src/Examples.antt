-- ===== src/Examples.antt =====
-- Concrete inputs at which the theorems apply: a small machine with an iptables binary, a small
-- cluster, and runs of the agent and of the controller.
pub mod Machine
pub mod Rules
pub mod Shaping
pub mod Proxies
pub mod Cluster
pub mod Pods
pub mod Nodes
pub mod Agents
pub mod Faults
pub mod Streams
