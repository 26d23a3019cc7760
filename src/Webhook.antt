-- ===== src/Webhook.antt =====
-- internal/webhook: the HTTP endpoints, the Slack handler with the update of the custom resource,
-- the alert handlers and the runners.
mod Examples
pub mod Runners
pub mod Handlers
pub mod Alert
pub mod Slack
pub mod Server
