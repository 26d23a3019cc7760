-- ===== src/Webhook/Slack/Examples.antt =====
-- The theorems on the Slack endpoints at single requests.
use climatik_project.Prelude.{
  String, none, some, List, [], ◌∷◌, ◌≡◌, ◌⊎◌, refl, All, ◌==◌, if◌then◌else◌,
}
use mathlib.Core.List.{reverse_aux}
use climatik_project.Go.Result.{ok, ret, ◌>>=◌}
use climatik_project.Go.Http.{fresh}
use climatik_project.Webhook.Slack.Config.{update_power_capping_config}
use climatik_project.Webhook.Slack.Session.{
  Request, SlackEnv, SlackHandler, Session, OptionObject, InteractionCallback, BlockAction,
}
use climatik_project.Webhook.Slack.Modal.{
  parameter_options, after_update, handle_view_submission, handle_block_actions,
}
use climatik_project.Webhook.Slack.Modal.Submission.{submission, submission_of_offered}
use climatik_project.Webhook.Slack.Modal.Refused.{IsFailed, handle_parameter_update-IsFailed}
use climatik_project.Webhook.Slack.Modal.{
  handle_parameter_update, drop_prefix, submitted_value, parameter_modal,
}
use climatik_project.Go.Map.{get, lookup}
use climatik_project.Webhook.Slack.Modal.Actions.{modals_for, block_actions_in_order}
use climatik_project.Webhook.Slack.Endpoints.{interaction_handler, run_interaction}
use climatik_project.Webhook.Slack.Endpoints.Verified.{
  IsVerified, IsRefused, interaction_handler-IsVerified,
}
use climatik_project.Webhook.Slack.Fixtures.{
  server, server-ServerLaws, low_reply, low_refused, lax_server,
}

abbrev example_handler : SlackHandler
example_handler = record { signing_secret = "secret"; slack_bot_token = "token" }

abbrev example_actions : List BlockAction
example_actions =
    record { action_id = "select_parameter"; selected_value = "efficiency_level" }
    ∷ record { action_id = "unheard_of"; selected_value = "" }
    ∷ []

abbrev example_payload : InteractionCallback
example_payload = record {
  interaction_type = "block_actions";
  trigger_id = "trigger";
  user_id = "user";
  block_actions = example_actions;
  callback_id = "";
  state = none;
}

-- The body of a request is its own signature, under the secret as the key.
abbrev example_env : SlackEnv
example_env = record {
  Verifier = String;
  new_secrets_verifier = λ header secret. ok secret;
  ensure = λ verifier seen.
      if verifier == seen then none else some "computed unexpected signing signature";
  slash_command_parse = λ r. (r.body, ok "/modify-power-config");
  form_value = λ r key. (r.body, r.body);
  unmarshal_interaction = λ text. ok example_payload;
  open_view = λ token trigger view. none;
  post_message = λ token channel text. none;
  encode_message = λ blocks. "{}";
  encode_map = λ m. "{}";
}

abbrev example_request : Request
example_request = record { header = []; body = "secret" }

abbrev example_session : Session lax_server
example_session = record { response = fresh; calls = []; kube = [] }

interaction_handler-IsVerified_example :
    IsRefused example_env lax_server example_handler example_session
      (interaction_handler example_env lax_server example_handler example_request example_session)
    ⊎ (IsVerified example_env lax_server example_handler example_request
          (example_env.form_value example_request "payload").0
        × ((payload : InteractionCallback) × (example_env.unmarshal_interaction
                (example_env.form_value example_request "payload").1
              ≡ ok payload)
            × (interaction_handler example_env lax_server example_handler example_request
                  example_session
                ≡ run_interaction example_env lax_server example_handler payload example_session)))
interaction_handler-IsVerified_example =
    interaction_handler-IsVerified example_env lax_server example_handler example_request
      example_session

submission_of_offered_example :
    All
      (λ (o : OptionObject).
        handle_view_submission example_env lax_server example_handler
          (submission "user" o.value "Low")
          example_session
        ≡ (update_power_capping_config lax_server [] o.value "Low" >>= λ updated. ret (
            after_update example_env lax_server example_handler "user" o.value "Low" updated
              example_session)))
      parameter_options
submission_of_offered_example =
    submission_of_offered example_env lax_server example_handler "user" "Low" example_session

block_actions_in_order_example :
    ((handle_block_actions example_env lax_server example_handler "trigger" example_actions
        example_session).calls
      ≡ reverse_aux (modals_for "trigger" example_actions) [])
    × ((handle_block_actions example_env lax_server example_handler "trigger" example_actions
          example_session).response.sent
        ≡ (handle_block_actions example_env lax_server example_handler "trigger"
            (record { action_id = "select_parameter"; selected_value = "efficiency_level" } ∷ [])
            example_session).response.sent)
block_actions_in_order_example =
    block_actions_in_order example_env lax_server example_handler "trigger"
      (record { action_id = "select_parameter"; selected_value = "efficiency_level" })
      (record { action_id = "unheard_of"; selected_value = "" } ∷ []) example_session

abbrev server_session : Session server
server_session = record { response = fresh; calls = []; kube = [] }

abbrev low_submission : InteractionCallback
low_submission = submission "user" "efficiency_level" "Low"

abbrev failed_session : Session server
failed_session =
    after_update example_env server example_handler "user" "efficiency_level" "Low" low_reply
      server_session

low_handled :
    handle_parameter_update example_env server example_handler low_submission server_session
    ≡ ret failed_session
unfolding handle_parameter_update drop_prefix submitted_value get lookup parameter_modal
low_handled = rw low_refused

handle_parameter_update-IsFailed_example :
    IsFailed example_env server example_handler server_session failed_session
handle_parameter_update-IsFailed_example =
    handle_parameter_update-IsFailed example_env server example_handler server-ServerLaws
      low_submission server_session failed_session refl low_handled
