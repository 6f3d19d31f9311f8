-- ===== src/Runtime.antt =====
-- pkg/runtime/lock.go: the lock that lets one agent run at a time.
pub mod Files
pub mod Lock
pub mod Temporary
pub mod Exclusion
pub mod System
pub mod Race
pub mod Unreadable
pub mod Outcome
