-- ===== src/Http.antt =====
-- pkg/agent/protocol/http: the proxies that disrupt HTTP requests and TCP connections.
pub mod Proxy
pub mod Handler
pub mod Counting
pub mod Responses
pub mod Delays
pub mod ResetPeer
pub mod Resetting
