-- ===== src/Controller.antt =====
-- internal/controller/powercappingconfig_controller.go: the reconciler, the pod handlers, the
-- Prometheus queries and the power cap.
mod Examples
pub mod Cluster
pub mod Metrics
pub mod Power
pub mod Pods
pub mod Informer
