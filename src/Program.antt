-- ===== src/Program.antt =====
-- The program: main.go, and the configuration of its tools in utils/kube.go.
pub mod Kubeconfig
pub mod Main
pub mod Watches
