-- ===== src/Net.antt =====
-- crates/shared/src/net.rs and crates/infrastructure/src/metrics_guard.rs: who the client is.
pub mod Addr
pub mod ClientIp
mod Tests
