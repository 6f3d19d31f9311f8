-- ===== src/Network.antt =====
-- pkg/agent/network: disruptors that drop or shape traffic. The time that `Apply` waits is
-- an event that the environment chooses.
pub mod Wait
pub mod Drop
pub mod Partition
pub mod Shaping
pub mod Restores
pub mod Rules
