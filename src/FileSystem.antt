-- ===== src/FileSystem.antt =====
-- The FileSystem resource (pkg/resource/file_system and apis/v1alpha1/file_system.go).
pub mod Types
pub mod Sdk
pub mod Hooks
pub mod Delta
pub mod Manager
pub mod Outcome
pub mod Read
pub mod Update
pub mod Rules
pub mod Drift
pub mod Ignored
pub mod Settled
pub mod Policy
pub mod TagOps
pub mod References
pub mod Resolve
pub mod Resource
pub mod Managed
pub mod Factory
