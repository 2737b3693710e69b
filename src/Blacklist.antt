-- ===== src/Blacklist.antt =====
-- crates/infrastructure/src/access_token_blacklist and the port `AccessTokenBlacklist` of
-- crates/shared/src/ports.rs: the list of revoked access tokens.
pub mod Memory
pub mod Backend
pub mod InMemory
pub mod Redis
pub mod Durable
mod Tests
