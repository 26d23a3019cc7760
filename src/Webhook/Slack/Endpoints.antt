-- ===== src/Webhook/Slack/Endpoints.antt =====
-- The two endpoints: every request is verified before anything is done.
pub mod Verified
use climatik_project.Prelude.{ℕ, String, Option, none, some, List, [], ◌∷◌, ◌==◌, if◌then◌else◌}
use climatik_project.Go.Result.{Error, Result, ok, err, Call, ret, panic, Failure}
use climatik_project.Go.Http.{
  Response, http_error, status_bad_request, status_unauthorized, status_internal_server_error,
}
use climatik_project.Webhook.Slack.Config.{KubeApi}
use climatik_project.Webhook.Slack.Session.{
  Request, SlackEnv, SlackHandler, Session, InteractionCallback,
}
use climatik_project.Webhook.Slack.Modal.{
  respond, handle_modify_power_config, handle_block_actions, handle_view_submission,
}

module _ (env : SlackEnv) (api : KubeApi) (sh : SlackHandler) where
  abbrev refuse : String → ℕ → Session api → Call (Session api)
  refuse message status s = ret (respond env api sh (http_error message status) s)

  -- `verifier.Ensure`, and then the rest of the handler.
  abbrev verified : env.Verifier → String → Session api → Call (Session api) → Call (Session api)
  verified verifier seen s rest = elim (env.ensure verifier seen) [
    | some e ↦ refuse "Failed to verify request" status_unauthorized s
    | none ↦ rest
  ]

  -- The `switch` on the command.
  unfoldable pub run_command : String → Session api → Call (Session api)
  run_command command s =
      if command == "/modify-power-config"
      then ret (handle_modify_power_config env api sh s)
      else refuse "Unknown command" status_bad_request s

  abbrev on_command : env.Verifier → String × Result String → Session api → Call (Session api)
  on_command verifier (seen, err e) s =
      refuse "Failed to parse slash command" status_internal_server_error s
  on_command verifier (seen, ok command) s = verified verifier seen s (run_command command s)

  unfoldable pub command_handler : Request → Session api → Call (Session api)
  command_handler r s = elim (env.new_secrets_verifier r.header sh.signing_secret) [
    | err e ↦ refuse "Failed to create secret verifier" status_internal_server_error s
    | ok verifier ↦ on_command verifier (env.slash_command_parse r) s
  ]

  -- The `switch` on the type of the interaction.
  unfoldable pub run_interaction : InteractionCallback → Session api → Call (Session api)
  run_interaction payload s =
      if payload.interaction_type == "block_actions"
      then ret (handle_block_actions env api sh payload.trigger_id payload.block_actions s)
      else if payload.interaction_type == "view_submission"
      then handle_view_submission env api sh payload s
      else refuse "Unknown interaction type" status_bad_request s

  abbrev on_interaction :
      env.Verifier → String → Result InteractionCallback → Session api → Call (Session api)
  on_interaction verifier seen (err e) s =
      refuse "Failed to parse interaction payload" status_bad_request s
  on_interaction verifier seen (ok payload) s = verified verifier seen s (run_interaction payload s)

  unfoldable pub interaction_handler : Request → Session api → Call (Session api)
  interaction_handler r s = elim (env.new_secrets_verifier r.header sh.signing_secret) [
    | err e ↦ refuse "Failed to create secret verifier" status_internal_server_error s
    | ok verifier ↦
        let (seen, payload) = env.form_value r "payload" in
        on_interaction verifier seen (env.unmarshal_interaction payload) s
  ]
