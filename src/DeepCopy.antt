-- ===== src/DeepCopy.antt =====
-- The deep copies of the custom resources (apis/v1alpha1/zz_generated.deepcopy.go).
pub mod Structs
pub mod Slots
pub mod Fields
pub mod Parts
pub mod Resources
pub mod FileSystem
pub mod AccessPoint
pub mod MountTarget
pub mod Descriptions
pub mod Shows
pub mod Separate
