-- ===== src/PodWaits.antt =====
-- pkg/kubernetes/helpers/pods.go: the waits for a condition of a pod, the ephemeral containers, and the
-- termination of a pod.
pub mod Conditions
pub mod Helper
pub mod Waits
pub mod Restarts
pub mod Attach
