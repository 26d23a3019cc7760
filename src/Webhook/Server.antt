-- ===== src/Webhook/Server.antt =====
-- internal/webhook/slack_webhook.go, and CreateWebhook of internal/webhook/webhook.go: what is
-- registered with the default multiplexer, and how a program that serves it ends.
pub mod Routes
use Prim.Native.String.{◌++◌}
use climatik_project.Prelude.{
  ℕ, String, Option, none, some, List, [], ◌∷◌, ◌||◌, ◌==◌, if◌then◌else◌,
}
use climatik_project.Go.Result.{Error, Result, ok, err, Failure}
use climatik_project.Go.Text.{print_nat}
use climatik_project.Webhook.Slack.Session.{SlackHandler, new_slack_handler}

-- The handlers that the package registers.
pub data Endpoint : Type 0 where
  alert : Endpoint
  slack_command : SlackHandler → Endpoint
  slack_interact : SlackHandler → Endpoint

-- The patterns of the default multiplexer, the last one that was registered first.
abbrev pub Mux : Type 0
Mux = List (String × Endpoint)

-- How a program ends: `log.Fatal` with its text, and what was served until then.
pub data Ended : Type 0 where
  fatal : String → Ended
  served : String → Mux → String → Ended

-- What the servers call: `clientcmd.BuildConfigFromFlags`, `dynamic.NewForConfig`, and
-- `http.ListenAndServe` by its address, which returns only with an error.
pub record ServerEnv : Type 0 where
  pub build_config : Failure
  pub new_dynamic : Failure
  pub listen_and_serve : String → Mux → Error

abbrev pub port_address : ℕ → String
port_address port = ":" ++ print_nat port

abbrev listen : ServerEnv → String → Mux → Ended
listen s address routes =
    served address routes ("Failed to start server: " ++ s.listen_and_serve address routes)

-- `CreateWebhook`
unfoldable pub create_webhook : ServerEnv → ℕ → Mux → Ended
create_webhook s port routes = listen s (port_address port) (("/alert", alert) ∷ routes)

-- The variables of the package, as its `init` sets them.
pub record Secrets : Type 0 where
  pub signing_secret : String
  pub slack_bot_token : String

-- `init`, by the values of the two environment variables.
unfoldable pub init : String → String → Result Secrets
init signing_secret slack_bot_token =
    if signing_secret == "" || slack_bot_token == ""
    then err "SLACK_SIGNING_SECRET and SLACK_BOT_TOKEN must be set"
    else ok (record { signing_secret = signing_secret; slack_bot_token = slack_bot_token })

abbrev serve_slack : ServerEnv → ℕ → Mux → Result SlackHandler → Ended
serve_slack s port routes (err e) = fatal ("Failed to create SlackHandler: " ++ e)
serve_slack s port routes (ok handler) = listen s (port_address port) (
    ("/slack/interact", slack_interact handler)
    ∷ ("/slack/command", slack_command handler)
    ∷ routes)

-- `CreateSlackWebhook`
unfoldable pub create_slack_webhook : ServerEnv → Secrets → ℕ → Mux → Ended
create_slack_webhook s secrets port routes =
    serve_slack s port routes (
      new_slack_handler s.build_config s.new_dynamic secrets.signing_secret secrets.slack_bot_token)

-- The package's `main`, which no program calls.
unfoldable pub main : ServerEnv → Secrets → Mux → Ended
main s secrets routes = create_slack_webhook s secrets 8088 routes

-- The endpoint for a path; the patterns have no trailing slash, so only the path itself fits.
unfoldable pub route : Mux → String → Option Endpoint
route [] path = none
route ((pattern_path, endpoint) ∷ routes) path =
    if pattern_path == path then some endpoint else route routes path
