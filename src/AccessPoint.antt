-- ===== src/AccessPoint.antt =====
-- The AccessPoint resource (pkg/resource/access_point and apis/v1alpha1/access_point.go).
pub mod Types
pub mod Sdk
pub mod Hooks
pub mod Delta
pub mod Manager
pub mod References
pub mod Resource
pub mod Factory
pub mod Resolve
pub mod Outcome
pub mod Seen
pub mod Created
