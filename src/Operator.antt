-- ===== src/Operator.antt =====
-- pkg/controllers/operator/operator_controller.go: the controller that keeps the compute groups of an
-- operator, and the deployments and services of a compute group.
pub mod Deps
pub mod Groups
pub mod Sets
pub mod Updates
pub mod Events
pub mod Work
pub mod Loops
pub mod Start
pub mod LostErrors
pub mod Adopt
pub mod Settle
pub mod Sync
pub mod Makeable
pub mod Noted
pub mod Kept
pub mod Complete
pub mod Named
pub mod Overwritten
pub mod Deployed
pub mod Restarted
pub mod Cleaned
pub mod Grouped
pub mod Unneeded
pub mod Gone
pub mod Ownership
