-- ===== src/DeepCopy/Separate.antt =====
-- A deep copy shares no cell with what it copies.
pub mod Fields
pub mod Parts
pub mod FileSystem
pub mod AccessPoint
pub mod MountTarget
pub mod Descriptions
pub mod Resources
pub mod Kinds
