-- ===== src/Admin.antt =====
-- crates/admin: who may see the users and change their roles.
pub mod Role
pub mod Store
pub mod Directory
pub mod Repo
pub mod Frames
pub mod Routes
mod Tests
