-- ===== src/Webhook/Slack.antt =====
-- internal/webhook/handlers/slack_handler.go
pub mod Fixtures
mod Examples
pub mod Config
pub mod Session
pub mod Modal
pub mod Endpoints
