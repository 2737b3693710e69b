-- ===== src/Config.antt =====
-- Settings from the environment: crates/auth/src/config/auth_settings.rs and
-- crates/shared/src/config/settings.rs.
pub mod Env
pub mod Password
pub mod AuthSettings
pub mod DatabaseUrl
pub mod Settings
pub mod Sample
mod Tests
