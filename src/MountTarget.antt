-- ===== src/MountTarget.antt =====
-- The MountTarget kind (pkg/resource/mount_target).
pub mod Types
pub mod Sdk
pub mod Delta
pub mod Manager
pub mod References
pub mod Resource
pub mod Factory
pub mod Groups
pub mod Resolve
pub mod Seen
pub mod Settled
pub mod Read
pub mod Outcome
