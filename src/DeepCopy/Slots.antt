-- ===== src/DeepCopy/Slots.antt =====
-- The types that a pointer may lead to, each with its cell (apis/v1alpha1).
mod Values
mod Parts
mod Kinds
unfoldable pub use Values.*
unfoldable pub use Parts.*
unfoldable pub use Kinds.*
