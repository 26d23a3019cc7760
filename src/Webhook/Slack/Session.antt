-- ===== src/Webhook/Slack/Session.antt =====
-- What the Slack handler works with: the request, what slack-go and `encoding/json` make of it,
-- and the state that a request changes.
use Prim.Native.String.{◌++◌}
use climatik_project.Prelude.{String, Option, none, some, List}
use climatik_project.Go.Result.{Result, ok, err, Failure}
use climatik_project.Go.Map.{Map}
use climatik_project.Go.Http.{Response}
use climatik_project.Webhook.Slack.Config.{KubeApi}

pub record Request : Type 0 where
  pub header : Map String
  pub body : String

-- The parts of slack-go's types that the handlers read.
pub record BlockAction : Type 0 where
  pub action_id : String
  pub selected_value : String

-- `View.State` is a pointer, which is nil if the payload has no state.
pub record InteractionCallback : Type 0 where
  pub interaction_type : String
  pub trigger_id : String
  pub user_id : String
  pub block_actions : List BlockAction
  pub callback_id : String
  pub state : Option (Map (Map String))

-- A modal with one text input.
pub record ModalView : Type 0 where
  pub title : String
  pub submit : String
  pub close : String
  pub block_id : String
  pub label : String
  pub action_id : String
  pub callback_id : String

-- An option of the menu: its value, its text and its description.
pub record OptionObject : Type 0 where
  pub value : String
  pub text : String
  pub description : String

-- The message blocks that the handler sends.
pub data Block : Type 0 where
  section : String → Block
  actions : String → String → String → List OptionObject → Block

-- slack-go, `encoding/json` and the form parser. A parser returns the bytes of the body that it
-- has read, which is what the verifier has seen, and its result.
pub record SlackEnv : Type 1 where
  pub Verifier : Type 0
  pub new_secrets_verifier : Map String → String → Result Verifier
  -- `verifier.Ensure`, after the bytes that were read
  pub ensure : Verifier → String → Failure
  -- the command of `slack.SlashCommandParse`
  pub slash_command_parse : Request → String × Result String
  -- `r.FormValue`
  pub form_value : Request → String → String × String
  -- `json.Unmarshal` into an InteractionCallback
  pub unmarshal_interaction : String → Result InteractionCallback
  -- the error of `OpenView`, by bot token, trigger and view
  pub open_view : String → String → ModalView → Failure
  -- the error of `PostMessage`, by bot token, channel and text
  pub post_message : String → String → String → Failure
  -- `json.NewEncoder(w).Encode`
  pub encode_message : List Block → String
  pub encode_map : Map String → String

-- The calls of the Slack API that were made.
pub data SlackCall : Type 0 where
  opened : String → ModalView → SlackCall
  posted : String → String → SlackCall

pub record SlackHandler : Type 0 where
  pub signing_secret : String
  pub slack_bot_token : String

-- `NewSlackHandler`, with the errors of reading the kubeconfig and of making the dynamic client.
unfoldable pub new_slack_handler : Failure → Failure → String → String → Result SlackHandler
new_slack_handler (some e) dynamic_client secret token = err ("failed to build kubeconfig: " ++ e)
new_slack_handler none (some e) secret token = err ("failed to create dynamic client: " ++ e)
new_slack_handler none none secret token =
    ok (record { signing_secret = secret; slack_bot_token = token })

-- The response so far, the Slack calls, the last one first, and the cluster.
pub record Session (api : KubeApi) : Type 0 where
  pub response : Response
  pub calls : List SlackCall
  pub kube : api.S
