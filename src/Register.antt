-- ===== src/Register.antt =====
-- pkg/controllers/register: the controller that tells the leaders of a compute group which pods belong
-- to their cluster.
pub mod Config
pub mod Web
pub mod Nodes
pub mod Listing
pub mod Process
pub mod Work
pub mod Loop
pub mod Cluster
pub mod Diff
pub mod Serving
pub mod Converge
pub mod Server
pub mod RoundTrip
pub mod Retry
pub mod Workers
pub mod Leaders
pub mod Watch
pub mod Run
pub mod History
pub mod MockPods
pub mod MockServer
