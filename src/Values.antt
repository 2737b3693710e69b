-- ===== src/Values.antt =====
-- crates/shared/src/domain: the value objects and events that the contexts share. A `Uuid` is its
-- number, and a `DateTime<Utc>` the nanoseconds since the epoch.
pub mod AuthMethod
pub mod AuthProvider
pub mod EventType
pub mod Email
pub mod HashedPassword
pub mod Events
