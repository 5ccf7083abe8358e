-- ===== src/Api.antt =====
-- pkg/apis/datafuse/v1alpha1: the custom resources, their defaults and their copies.
pub mod Types
pub mod Defaults
pub mod DeepCopy
pub mod Copies
pub mod Pointers
pub mod ObjectCopies
