-- ===== src/FileSystem/Policy.antt =====
-- The policy of a FileSystem over an update and the read after it
-- (pkg/resource/file_system/hooks.go, sdk.go and delta.go).
pub mod Kept
pub mod Read
pub mod Settled
