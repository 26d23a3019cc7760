-- ===== src/Cmd/Webhook/Served.antt =====
-- What the webhook program serves, and when.
use climatik_project.Prelude.{
  String, ◌≡◌, ◌≢◌, ◌⊎◌, inl, inr, [], ◌∷◌, arith, eq_iff, Bool-cases, ◌==◌, ==-eq-true,
}
use Prim.Native.String.{◌++◌}
use climatik_project.Go.Text.{print_nat}
use climatik_project.Webhook.Server.{alert, Mux, fatal, served, ServerEnv, init, create_webhook}
use climatik_project.Webhook.Server.Routes.{ServesOnlyAlerts, alert_routes}
use climatik_project.Cmd.Webhook.{main}

-- The webhook program listens on port 8080 with the endpoint /alert alone if both Slack secrets are
-- set, and ends before it listens if one of them is empty.
pub main_serves :
    (s : ServerEnv) (signing_secret slack_bot_token : String)
    → ((signing_secret ≢ "")
        × (slack_bot_token ≢ "")
        × ((routes : Mux) × (message : String) × (main s signing_secret slack_bot_token
              ≡ served ":8080" routes message)
            × ServesOnlyAlerts routes))
      ⊎ (((signing_secret ≡ "") ⊎ (slack_bot_token ≡ ""))
          × ((message : String) × (main s signing_secret slack_bot_token ≡ fatal message)))
unfolding main init create_webhook print_nat
main_serves s signing_secret slack_bot_token = elim (Bool-cases (signing_secret == "")) [
  | inl empty ↦ inr (
    inl (==-eq-true signing_secret "" empty),
    ("SLACK_SIGNING_SECRET and SLACK_BOT_TOKEN must be set", rw empty),
  )
  | inr has_secret ↦ elim (Bool-cases (slack_bot_token == "")) [
    | inl empty ↦ inr (
      inr (==-eq-true slack_bot_token "" empty),
      ("SLACK_SIGNING_SECRET and SLACK_BOT_TOKEN must be set", rw (has_secret, empty)),
    )
    | inr has_token ↦ inl (
      ground (arith, eq_iff signing_secret ""),
      ground (arith, eq_iff slack_bot_token ""),
      (
        ("/alert", alert) ∷ [],
        "Failed to start server: " ++ s.listen_and_serve ":8080" (("/alert", alert) ∷ []),
        rw (has_secret, has_token),
        alert_routes,
      ),
    )
  ]
]
