-- ===== src/Alert/Manager.antt =====
-- internal/alert/alert.go and internal/alert/factory.go: the interface `AlertManager` with the
-- three types that implement it, and their construction by name.
use Prim.Native.String.{◌++◌}
use climatik_project.Prelude.{String, ◌==◌, if◌then◌else◌}
use climatik_project.Go.Result.{Result, ok, err, Failure}
use climatik_project.Go.Map.{Map, get}
use climatik_project.Go.Client.{Client}
use climatik_project.Go.Float.{Float}
use climatik_project.Alert.World.{World, AlertArgs}
use climatik_project.Alert.Prometheus
use climatik_project.Alert.Prometheus.{PrometheusAlertManager, new_prometheus_alert_manager}
use climatik_project.Alert.GitOps
use climatik_project.Alert.GitOps.{GitOpsAlertManager, new_git_ops_alert_manager}
use climatik_project.Alert.Slack
use climatik_project.Alert.Slack.{SlackAlertManager, new_slack_alert_manager}

pub data AlertManager : Type 0 where
  prometheus : PrometheusAlertManager → AlertManager
  git_ops : GitOpsAlertManager → AlertManager
  slack : SlackAlertManager → AlertManager

-- The call of `CreateAlert` through the interface.
unfoldable pub create_alert : Float → Client → AlertManager → AlertArgs → World → Failure × World
create_alert f c (prometheus p) a w = Prometheus.create_alert c p a w
create_alert f c (git_ops g) a w = GitOps.create_alert c.now g a w
create_alert f c (slack s) a w = Slack.create_alert f c s a w

abbrev pub type_prometheus : String
type_prometheus = "prometheus"

abbrev pub type_git_ops : String
type_git_ops = "gitops"

abbrev pub type_slack : String
type_slack = "slack"

abbrev as_manager : {A : Type 0} → (A → AlertManager) → Result A → Result AlertManager
as_manager wrap (ok a) = ok (wrap a)
as_manager wrap (err e) = err e

abbrev with_manager :
    {A : Type 0} → (A → AlertManager) → Result A × World → Result AlertManager × World
with_manager wrap (r, w) = (as_manager wrap r, w)

-- `NewAlertManager`; `new_client` is the error of the Prometheus library's `NewClient`.
unfoldable pub new_alert_manager :
    (String → Failure) → String → Map String → World → Result AlertManager × World
new_alert_manager new_client manager_type config w =
    if manager_type == type_prometheus
    then (
      as_manager prometheus
          (new_prometheus_alert_manager new_client (get "" "prometheusAddress" config)),
      w,
    )
    else if manager_type == type_git_ops
    then with_manager git_ops
        (new_git_ops_alert_manager (get "" "repoURL" config) (get "" "repoDir" config) w)
    else if manager_type == type_slack
    then (as_manager slack (new_slack_alert_manager (get "" "webhookURL" config)), w)
    else (err ("unsupported alert manager type: " ++ manager_type), w)
