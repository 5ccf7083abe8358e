-- ===== src/Kube.antt =====
-- The objects of Kubernetes with the fields that the source reads or writes, and the functions of
-- the libraries that work on them.
pub mod Objects
pub mod Meta
pub mod Queue
pub mod Worker
