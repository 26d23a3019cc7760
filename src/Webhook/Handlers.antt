-- ===== src/Webhook/Handlers.antt =====
-- internal/webhook/handlers/gitops_handler.go, prometheus_handler.go and the stub of the Slack
-- handler, and internal/webhook/factory/factory.go.
use Prim.Native.String.{◌++◌}
use climatik_project.Prelude.{String, none, some, [], ◌==◌, if◌then◌else◌}
use climatik_project.Go.Result.{Result, ok, err, ret, Failure}
use climatik_project.Webhook.Runners.{RunnerEnv, Runner, Run, run}

pub data AlertHandler : Type 0 where
  slack : AlertHandler
  git_ops : Runner → AlertHandler
  prometheus : Runner → AlertHandler

-- `AlertHandlerFactory.GetHandler`
unfoldable pub get_handler : String → Result AlertHandler
get_handler source =
    if source == "slack"
    then ok slack
    else if source == "prometheus"
    then err "PrometheusAlertHandler not implemented"
    else if source == "gitops"
    then err "GitOpsAlertHandler not implemented"
    else err ("unknown alert source: " ++ source)

module _ (env : RunnerEnv) (unmarshal : String → Failure) where
  abbrev after_unmarshal : Failure → Run env → Run env
  after_unmarshal (some e) r = (ret (some e), [])
  after_unmarshal none r = r

  -- `HandleAlert`; `unmarshal` is the error of `json.Unmarshal` into the handler's request type,
  -- whose value is not used.
  unfoldable pub handle_alert : AlertHandler → String → Run env
  handle_alert slack payload = (ret none, [])
  handle_alert (git_ops runner) payload = after_unmarshal (unmarshal payload) (run env runner)
  handle_alert (prometheus runner) payload = after_unmarshal (unmarshal payload) (run env runner)
