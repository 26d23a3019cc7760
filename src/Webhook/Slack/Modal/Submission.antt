-- ===== src/Webhook/Slack/Modal/Submission.antt =====
-- The way of a parameter from the menu through the modal to the update.
use Prim.Native.String
use text.Mathlib.TextLemmas.{append_cancel_left}
use climatik_project.Prelude.{String, ◌≡◌, refl, sym, ◌≢◌, some, [], ◌∷◌, All, ==-eq-false}
use climatik_project.Go.Result.{ret, ◌>>=◌}
use climatik_project.Go.Map.{get, lookup}
use climatik_project.Go.Http.{http_error, status_bad_request}
use climatik_project.Webhook.Slack.Config.{KubeApi, update_power_capping_config}
use climatik_project.Webhook.Slack.Session.{
  SlackEnv, SlackHandler, Session, OptionObject, InteractionCallback,
}
use climatik_project.Webhook.Slack.Modal.{
  parameter_options, parameter_modal, drop_prefix, submitted_value, respond, after_update,
  handle_parameter_update, handle_view_submission,
}

-- What Slack sends when a user submits the modal of a parameter with a value.
abbrev pub submission : String → String → String → InteractionCallback
submission user_id parameter value = record {
  interaction_type = "view_submission";
  trigger_id = "";
  user_id = user_id;
  block_actions = [];
  callback_id = (parameter_modal parameter).callback_id;
  state = some (
      ((parameter_modal parameter).block_id, ((parameter_modal parameter).action_id, value) ∷ [])
      ∷ []);
}

module _ (env : SlackEnv) (api : KubeApi) (sh : SlackHandler) where
  -- For every parameter that the menu offers, submitting the modal that was opened for it updates
  -- exactly that parameter with exactly the value that was entered, and answers by the outcome.
  pub submission_of_offered :
      (user_id value : String) (s : Session api)
      → All
          (λ (o : OptionObject).
            handle_view_submission env api sh (submission user_id o.value value) s ≡ (
              update_power_capping_config api s.kube o.value value >>= λ updated.
              ret (after_update env api sh user_id o.value value updated s)))
          parameter_options
  unfolding handle_view_submission handle_parameter_update parameter_modal drop_prefix
      submitted_value get lookup
  submission_of_offered user_id value s = (refl, (refl, tt))

  -- Submitting a modal that was opened for any other parameter changes nothing but the response,
  -- which is the error 400.
  pub submission_of_other :
      (user_id parameter value : String) (s : Session api)
      → All (λ (o : OptionObject). o.value ≢ parameter) parameter_options
      → handle_view_submission env api sh (submission user_id parameter value) s
        ≡ ret (respond env api sh (http_error "Unknown view submission" status_bad_request) s)
  unfolding handle_view_submission parameter_modal
  submission_of_other user_id parameter value s (level, (percentage, _)) =
      let differs =
        λ (p : String) (ne : p ≢ parameter)
            (e : String.◌++◌ "set_" parameter ≡ String.◌++◌ "set_" p).
          ne (sym (append_cancel_left "set_" parameter p e)) in
      rw (
        ==-eq-false (String.◌++◌ "set_" parameter) "set_efficiency_level"
            (differs "efficiency_level" level),
        ==-eq-false (String.◌++◌ "set_" parameter) "set_power_cap_percentage"
            (differs "power_cap_percentage" percentage),
      )
