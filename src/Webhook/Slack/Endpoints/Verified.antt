-- ===== src/Webhook/Slack/Endpoints/Verified.antt =====
-- Nothing is done for a request that the verifier has not accepted.
use climatik_project.Prelude.{ℕ, String, ◌≡◌, none, ◌⊎◌, inl, inr, arith, Option-cases}
use climatik_project.Go.Result.{ok, Call, ret, Result-cases}
use climatik_project.Go.Http.{http_error}
use climatik_project.Webhook.Slack.Config.{KubeApi}
use climatik_project.Webhook.Slack.Session.{
  Request, SlackEnv, SlackHandler, Session, InteractionCallback,
}
use climatik_project.Webhook.Slack.Modal.{respond}
use climatik_project.Webhook.Slack.Endpoints.{
  command_handler, run_command, interaction_handler, run_interaction,
}

module _ (env : SlackEnv) (api : KubeApi) (sh : SlackHandler) where
  -- The verifier of the request's headers accepts the bytes that were read.
  abbrev pub IsVerified : Request → String → Type 0
  IsVerified r seen =
      (verifier : env.Verifier) × (env.new_secrets_verifier r.header sh.signing_secret
        ≡ ok verifier)
      × (env.ensure verifier seen ≡ none)

  -- The result is an error response, and neither Slack nor the cluster is called.
  abbrev pub IsRefused : Session api → Call (Session api) → Type 0
  IsRefused s result =
      (message : String) × (status : ℕ) × (result
        ≡ ret (respond env api sh (http_error message status) s))

  -- A request to /slack/command either is refused with an error response, before Slack or the
  -- cluster is called, or was verified and parsed, and its command is run.
  command_handler-IsVerified :
      (r : Request) (s : Session api)
      → IsRefused s (command_handler env api sh r s)
        ⊎ (IsVerified r (env.slash_command_parse r).0
            × ((command : String) × ((env.slash_command_parse r).1 ≡ ok command)
                × (command_handler env api sh r s ≡ run_command env api sh command s)))
  unfolding command_handler
  command_handler-IsVerified r s =
      elim (Result-cases (env.new_secrets_verifier r.header sh.signing_secret)) [
        | inr (e, bad) ↦ inl ("Failed to create secret verifier", 500, ground arith)
        | inl (verifier, made) ↦ elim (Result-cases (env.slash_command_parse r).1) [
          | inr (e, bad) ↦ inl ("Failed to parse slash command", 500, ground arith)
          | inl (command, parsed) ↦
              elim (Option-cases (env.ensure verifier (env.slash_command_parse r).0)) [
                | inr (e, bad) ↦ inl ("Failed to verify request", 401, ground arith)
                | inl good ↦ inr ((verifier, made, good), (command, parsed, ground arith))
              ]
        ]
      ]

  -- A request to /slack/interact either is refused with an error response, before Slack or the
  -- cluster is called, or was verified and its payload parsed, and the interaction is run.
  pub interaction_handler-IsVerified :
      (r : Request) (s : Session api)
      → IsRefused s (interaction_handler env api sh r s)
        ⊎ (IsVerified r (env.form_value r "payload").0
            × ((payload : InteractionCallback) × (env.unmarshal_interaction
                    (env.form_value r "payload").1
                  ≡ ok payload)
                × (interaction_handler env api sh r s ≡ run_interaction env api sh payload s)))
  unfolding interaction_handler
  interaction_handler-IsVerified r s =
      elim (Result-cases (env.new_secrets_verifier r.header sh.signing_secret)) [
        | inr (e, bad) ↦ inl ("Failed to create secret verifier", 500, ground arith)
        | inl (verifier, made) ↦
            elim (Result-cases (env.unmarshal_interaction (env.form_value r "payload").1)) [
              | inr (e, bad) ↦ inl ("Failed to parse interaction payload", 400, ground arith)
              | inl (payload, parsed) ↦
                  elim (Option-cases (env.ensure verifier (env.form_value r "payload").0)) [
                    | inr (e, bad) ↦ inl ("Failed to verify request", 401, ground arith)
                    | inl good ↦ inr ((verifier, made, good), (payload, parsed, ground arith))
                  ]
            ]
      ]
