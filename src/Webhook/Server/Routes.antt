-- ===== src/Webhook/Server/Routes.antt =====
-- What the programs serve.
use Prim.Native.String.{◌++◌}
use climatik_project.Prelude.{
  String, ◌≡◌, ◌≢◌, ◌↔◌, ◌⊎◌, inl, inr, none, some, [], ◌∷◌, arith, eq_iff, Option-cases, ℕ,
}
use climatik_project.Webhook.Slack.Session.{SlackHandler, new_slack_handler}
use climatik_project.Webhook.Server.{
  Endpoint, alert, slack_command, slack_interact, Mux, fatal, served, ServerEnv, Secrets,
  port_address, create_slack_webhook, route,
}

-- The endpoint is exactly the one for the alerts, under its path alone.
abbrev pub ServesOnlyAlerts : Mux → Type 0
ServesOnlyAlerts routes =
    (path : String) (endpoint : Endpoint)
    → (route routes path ≡ some endpoint) ↔ ((path ≡ "/alert") × (alert ≡ endpoint))

pub alert_routes : ServesOnlyAlerts (("/alert", alert) ∷ [])
unfolding route
alert_routes path endpoint = (λ e. ground (arith, eq_iff "/alert" path), λ h. rw (h.0, h.1))

-- The routes of the Slack server, with the handler that both endpoints share.
abbrev pub ServesSlack : SlackHandler → Mux → Type 0
ServesSlack handler routes =
    (path : String) (endpoint : Endpoint)
    → (route routes path ≡ some endpoint) ↔ (
        ((path ≡ "/slack/command") × (slack_command handler ≡ endpoint))
        ⊎ ((path ≡ "/slack/interact") × (slack_interact handler ≡ endpoint)))

abbrev slack_mux : SlackHandler → Mux
slack_mux handler =
    ("/slack/interact", slack_interact handler) ∷ ("/slack/command", slack_command handler) ∷ []

slack_routes : (handler : SlackHandler) → ServesSlack handler (slack_mux handler)
unfolding route
slack_routes handler path endpoint = (
  λ e. ground (arith, eq_iff "/slack/command" path, eq_iff "/slack/interact" path),
  λ h. elim h [
    | inl command ↦ rw (command.0, command.1)
    | inr interact ↦ rw (interact.0, interact.1)
  ],
)

-- The Slack server either ends at once, because the kubeconfig cannot be read or the dynamic
-- client cannot be made, or listens on the port with the two Slack endpoints alone, which share one
-- handler with the two secrets, until it can no longer.
pub create_slack_webhook_cases :
    (s : ServerEnv) (secrets : Secrets) (port : ℕ)
    → (((s.build_config ≢ none) ⊎ (s.new_dynamic ≢ none))
        × ((message : String) × (create_slack_webhook s secrets port [] ≡ fatal message)))
      ⊎ ((s.build_config ≡ none)
          × (s.new_dynamic ≡ none)
          × ((routes : Mux) × (message : String) × (create_slack_webhook s secrets port []
                ≡ served (port_address port) routes message)
              × ServesSlack
                  (record {
                    signing_secret = secrets.signing_secret;
                    slack_bot_token = secrets.slack_bot_token;
                  })
                  routes))
unfolding create_slack_webhook new_slack_handler
create_slack_webhook_cases s secrets port =
    let handler : SlackHandler = record {
      signing_secret = secrets.signing_secret;
      slack_bot_token = secrets.slack_bot_token;
    } in
    let routes = slack_mux handler in
    elim (Option-cases s.build_config) [
      | inr (e, bad) ↦ inl (
        inl (ground arith),
        ("Failed to create SlackHandler: " ++ ("failed to build kubeconfig: " ++ e), rw bad),
      )
      | inl loaded ↦ elim (Option-cases s.new_dynamic) [
        | inr (e, bad) ↦ inl (
          inr (ground arith),
          (
            "Failed to create SlackHandler: " ++ ("failed to create dynamic client: " ++ e),
            rw (loaded, bad),
          ),
        )
        | inl made ↦ inr (
          loaded,
          made,
          (
            routes,
            "Failed to start server: " ++ s.listen_and_serve (port_address port) routes,
            rw (loaded, made),
            slack_routes handler,
          ),
        )
      ]
    ]
