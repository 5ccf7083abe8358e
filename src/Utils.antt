-- ===== src/Utils.antt =====
-- pkg/controllers/utils/operator_utils.go: the objects that the controllers create.
pub mod Pods
pub mod Deployments
pub mod Groups
pub mod Resources
pub mod Selection
pub mod Ownership
