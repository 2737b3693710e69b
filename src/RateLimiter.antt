-- ===== src/RateLimiter.antt =====
-- crates/infrastructure/src/rate_limiter: how often an address may try.
pub mod Memory
pub mod FixedWindow
pub mod Redis
mod Tests
