-- ===== src/Alert.antt =====
-- internal/alert: the alert managers, the publish/subscribe hub that starts them, the factory and
-- the service in front of them.
pub mod Fixtures
mod Examples
pub mod World
pub mod Prometheus
pub mod GitOps
pub mod Slack
pub mod Manager
pub mod PubSub
pub mod Service
pub mod Delivery
pub mod Posts
pub mod Schedules
pub mod Progress
pub mod Maps
pub mod Races
pub mod Setup
pub mod Destinations
