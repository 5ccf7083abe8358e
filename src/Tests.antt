-- ===== src/Tests.antt =====
-- Concrete libraries, pods and groups, and the theorems at them.
pub mod Fixtures
pub mod Cluster
pub mod Register
pub mod Deployments
pub mod Operator
pub mod Queues
pub mod Utils
pub mod Copies
pub mod Gone
pub mod Client
pub mod Loops
pub mod Complete
pub mod Adopt
pub mod Leaders
pub mod Scope
pub mod History
pub mod MockPods
pub mod Grouped
pub mod Statuses
pub mod Syncing
pub mod Program
pub mod Pair
