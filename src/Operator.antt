-- ===== src/Operator.antt =====
-- python/climatik_operator: the operator in Python, which scales the deployments of a power capping
-- configuration.
pub mod Python
pub mod Number
pub mod Cluster
pub mod Strategy
pub mod Gauges
pub mod Create
pub mod Monitor
mod Fixtures
mod Examples
