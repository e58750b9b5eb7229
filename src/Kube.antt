-- ===== src/Kube.antt =====
-- internal/runtime/kubernetes.go: the runtime on Kubernetes.
pub mod Model
pub mod Pod
pub mod Calls
