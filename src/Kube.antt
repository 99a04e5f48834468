-- ===== src/Kube.antt =====
-- pkg/kube: the Kubernetes API calls of the node plugin.
pub mod Net
pub mod Client
pub mod Policy
pub mod Answers
pub mod Deletion
