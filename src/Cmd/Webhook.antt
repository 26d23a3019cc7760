-- ===== src/Cmd/Webhook.antt =====
-- cmd/webhook/main.go
pub mod Served
use climatik_project.Prelude.{String, [], ◌∷◌}
use climatik_project.Go.Result.{Result, ok, err}
use climatik_project.Webhook.Server.{Ended, fatal, ServerEnv, Secrets, init, create_webhook}

abbrev after_init : ServerEnv → Result Secrets → Ended
after_init s (err e) = fatal e
after_init s (ok secrets) = create_webhook s 8080 []

-- The program, after the `init` of the package that it imports, by the values of the environment
-- variables SLACK_SIGNING_SECRET and SLACK_BOT_TOKEN.
unfoldable pub main : ServerEnv → String → String → Ended
main s signing_secret slack_bot_token = after_init s (init signing_secret slack_bot_token)
