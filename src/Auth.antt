-- ===== src/Auth.antt =====
-- crates/auth: users, sessions, and the logins that make and end them.
pub mod Entities
pub mod Aggregate
pub mod Store
pub mod Tokens
pub mod Password
pub mod Audit
pub mod BcryptLimiter
pub mod UseCases
pub mod Routes
pub mod TokenRoutes
mod Sample
mod Tests
