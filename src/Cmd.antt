-- ===== src/Cmd.antt =====
-- cmd: the two programs.
pub mod Controller
pub mod Webhook
mod Examples
