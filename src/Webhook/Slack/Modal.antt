-- ===== src/Webhook/Slack/Modal.antt =====
-- The menu of parameters, the modal that asks for a value, and the submission of that modal.
pub mod Submission
pub mod Actions
pub mod Refused
use Prim.Native.String.{◌++◌, len, slice}
use climatik_project.Prelude.{
  ℕ, String, Bool, Option, none, some, List, [], ◌∷◌, ◌||◌, ltb, ◌==◌, if◌then◌else◌,
}
use climatik_project.Go.Result.{Error, Result, ok, err, Call, ret, panic, ◌>>=◌, Failure}
use climatik_project.Go.Text.{concat}
use climatik_project.Go.Map.{Map, get}
use climatik_project.Go.Http.{
  Response, http_error, write, write_header, set_header, status_bad_request, status_ok,
  status_internal_server_error,
}
use climatik_project.Webhook.Slack.Config.{KubeApi, update_power_capping_config}
use climatik_project.Webhook.Slack.Session.{
  SlackEnv, SlackHandler, SlackCall, opened, posted, Session, ModalView, OptionObject, Block,
  section, actions, BlockAction, InteractionCallback,
}

abbrev pub parameter_options : List OptionObject
parameter_options =
    record {
      value = "efficiency_level";
      text = "Efficiency Level";
      description = "Set the efficiency level";
    }
    ∷ record {
      value = "power_cap_percentage";
      text = "Power Cap Percentage";
      description = "Set the power cap percentage";
    }
    ∷ []

abbrev pub parameter_menu : List Block
parameter_menu =
    section "Choose a parameter to modify:"
    ∷ actions "parameter_selection" "Select a parameter" "select_parameter" parameter_options
    ∷ []

-- The view that `openParameterInputModal` builds.
unfoldable pub parameter_modal : String → ModalView
parameter_modal parameter = record {
  title = "Set " ++ parameter;
  submit = "Submit";
  close = "Cancel";
  block_id = "new_value_block";
  label = "New Value";
  action_id = "new_value_action";
  callback_id = "set_" ++ parameter;
}

-- `s[4:]`, which panics on a shorter text.
unfoldable pub drop_prefix : String → Call String
drop_prefix s = if ltb (len s) 4 then panic "slice bounds out of range" else ret (slice s 4 (len s))

-- The value in the state of a view; a nil state is dereferenced.
unfoldable pub submitted_value : Option (Map (Map String)) → Call String
submitted_value none = panic "invalid memory address or nil pointer dereference"
submitted_value (some values) = ret (get "" "new_value_action" (get [] "new_value_block" values))

module _ (env : SlackEnv) (api : KubeApi) (sh : SlackHandler) where
  abbrev pub respond : (Response → Response) → Session api → Session api
  respond change s = record s { response = change s.response }

  abbrev pub log_call : SlackCall → Session api → Session api
  log_call call s = record s { calls = call ∷ s.calls }

  unfoldable pub handle_modify_power_config : Session api → Session api
  handle_modify_power_config s =
      respond
        (λ w.
          write (env.encode_message parameter_menu)
            (set_header "Content-Type" "application/json" w))
        s

  abbrev after_open : Failure → Session api → Session api
  after_open (some e) s =
      respond (http_error ("Failed to open modal: " ++ e) status_internal_server_error) s
  after_open none s = respond (write_header status_ok) s

  unfoldable pub open_parameter_input_modal : String → String → Session api → Session api
  open_parameter_input_modal trigger_id parameter s =
      after_open (env.open_view sh.slack_bot_token trigger_id (parameter_modal parameter))
        (log_call (opened trigger_id (parameter_modal parameter)) s)

  -- The loop over the actions of the payload.
  unfoldable pub handle_block_actions : String → List BlockAction → Session api → Session api
  handle_block_actions trigger_id [] s = s
  handle_block_actions trigger_id (action ∷ rest) s = handle_block_actions trigger_id rest (
      if action.action_id == "select_parameter"
      then open_parameter_input_modal trigger_id action.selected_value s
      else respond (http_error "Unknown action" status_bad_request) s)

  abbrev after_post : Failure → Session api → Session api
  after_post (some e) s =
      respond (http_error ("Failed to send message: " ++ e) status_internal_server_error) s
  after_post none s =
      respond
        (λ w.
          write (env.encode_map (("response_action", "clear") ∷ []))
            (set_header "Content-Type" "application/json" w))
        s

  abbrev success_message : String → String → String
  success_message param value = concat ("Successfully updated " ∷ param ∷ " to " ∷ value ∷ [])

  abbrev pub after_update : String → String → String → Failure × api.S → Session api → Session api
  after_update user_id param value (some e, kube) s =
      respond (http_error e status_internal_server_error) (record s { kube = kube })
  after_update user_id param value (none, kube) s =
      let message = success_message param value in
      after_post (env.post_message sh.slack_bot_token user_id message)
        (log_call (posted user_id message) (record s { kube = kube }))

  unfoldable pub handle_parameter_update : InteractionCallback → Session api → Call (Session api)
  handle_parameter_update payload s = do
    param ← drop_prefix payload.callback_id
    value ← submitted_value payload.state
    updated ← update_power_capping_config api s.kube param value
    ret (after_update payload.user_id param value updated s)

  unfoldable pub handle_view_submission : InteractionCallback → Session api → Call (Session api)
  handle_view_submission payload s =
      if payload.callback_id == "set_efficiency_level"
        || payload.callback_id == "set_power_cap_percentage"
      then handle_parameter_update payload s
      else ret (respond (http_error "Unknown view submission" status_bad_request) s)
