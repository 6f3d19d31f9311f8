-- ===== src/Workload.antt =====
-- pkg/disruptors: replica changes of Deployments and StatefulSets, and their restoration.
pub mod Replica
pub mod Resolve
pub mod Helper
pub mod Selector
pub mod Disruptor
pub mod Restores
pub mod Reverts
pub mod Executions
