-- ===== src/Webhook/Alert.antt =====
-- internal/webhook/webhook.go: the endpoint /alert.
pub mod Accepted
use climatik_project.Prelude.{
  ℕ, String, Option, none, some, List, [], ◌∷◌, Bool, ◌||◌, ◌==◌, if◌then◌else◌,
}
use climatik_project.Go.Result.{Error, Result, ok, err, Call, ret, panic, Failure}
use climatik_project.Go.Map.{Map, get}
use climatik_project.Go.Http.{
  Response, http_error, write, write_header, status_bad_request, status_internal_server_error,
  status_ok,
}
use climatik_project.Webhook.Runners.{RunnerEnv, Action}
use climatik_project.Webhook.Handlers.{AlertHandler, get_handler, handle_alert}

-- The query parameters of a request, and what reading its body gives.
pub record Request : Type 0 where
  pub query : Map String
  pub body : Result String

module _ (env : RunnerEnv) (unmarshal : String → Failure) where
  abbrev pub Reply : Type 0
  Reply = Call Response × List (Action env.Job)

  abbrev answer : Failure → Response → Response
  answer none w = write "Alert received and handled" (write_header status_ok w)
  answer (some e) w = http_error e status_internal_server_error w

  abbrev respond : Call Failure × List (Action env.Job) → Response → Reply
  respond (ret r, actions) w = (ret (answer r w), actions)
  respond (panic m, actions) w = (panic m, actions)

  abbrev dispatch : Result AlertHandler → String → Response → Reply
  dispatch (err e) body w = (ret (http_error e status_bad_request w), [])
  dispatch (ok handler) body w = respond (handle_alert env unmarshal handler body) w

  unfoldable pub alert_handler : Request → Response → Reply
  alert_handler r w =
      let source = get "" "source" r.query in
      if source == "" || get "" "runner" r.query == "" || get "" "path" r.query == ""
      then (
        ret (
            http_error "Source, runner, and path query parameters are required" status_bad_request
              w),
        [],
      )
      else elim r.body [
        | err e ↦ (ret (http_error "Failed to read request body" status_bad_request w), [])
        | ok body ↦ dispatch (get_handler source) body w
      ]
