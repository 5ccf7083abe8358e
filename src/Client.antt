-- ===== src/Client.antt =====
-- pkg/client: the generated informers, listers and clients of the custom resources.
pub mod Informers
pub mod Factory
pub mod Sharing
pub mod Started
pub mod Listers
pub mod Requests
pub mod Watching
pub mod Operators
pub mod Fakes
pub mod Clientset
pub mod Scope
