-- ===== src/PodDisruptor.antt =====
-- pkg/disruptors/pod.go, selector.go, terminate.go and service.go: what the scripts call on a set of pods.
pub mod Selector
pub mod Injections
pub mod Services
pub mod Visits
pub mod Clean
pub mod CrashLoop
pub mod Crashes
