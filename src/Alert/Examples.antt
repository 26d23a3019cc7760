-- ===== src/Alert/Examples.antt =====
-- The theorems on the managers and on the service at one configuration.
mod Orders
use Prim.Native.String
use mathlib.Core.List.{Perm}
use climatik_project.Prelude.{
  ◌+◌, length, String, none, some, List, [], ◌∷◌, ◌++◌, ◌≡◌, ◌≢◌, ◌↔◌, refl, arith, eq_iff, All,
  map,
}
use climatik_project.Prelude.Int.{pos}
use climatik_project.Go.Result.{ok, Failure}
use climatik_project.Go.Text.{join}
use climatik_project.Go.Map.{Map, get, lookup, insert}
use climatik_project.Go.FilePath.Child.{NoSlash}
use climatik_project.Go.Float.Whole.{whole}
use climatik_project.Controller.Pods.{mock_power_capping_config}
use climatik_project.Alert.World.{World, AlertArgs}
use climatik_project.Alert.GitOps
use climatik_project.Alert.GitOps.{
  new_git_ops_alert_manager, GitOpsAlertManager, alert_file, format_alert_message, get_alerts,
}
use climatik_project.Alert.GitOps.Files.{alert_dir, alert_file-eq-under, create_alert_stores}
use climatik_project.Alert.Prometheus
use climatik_project.Alert.Prometheus.{PrometheusAlertManager, device_text}
use climatik_project.Alert.Prometheus.Accepted.{IsAcceptedBy, create_alert-IsAcceptedBy}
use climatik_project.Alert.Prometheus.Description.{entry, device_text-eq-join}
use climatik_project.Alert.Manager.{AlertManager, git_ops, slack, new_alert_manager}
use climatik_project.Alert.PubSub.{Task, publish, subscribe}
use climatik_project.Alert.Service.{
  AlertService, send_alert, new_alert_service, subscribe_all, create_alert_service, topic_alerts,
}
use climatik_project.Alert.Fixtures.{
  example_client, example_slack, empty_world, example_git_ops, example_service, example_time,
  example_args, other_args, example_config, accepting_client, subscribed, new_service_ok,
}
use climatik_project.Alert.Delivery.{Runs, done, next, run_task, IsStored, send_alert_delivers}
use climatik_project.Alert.Schedules.{text_after, send_alert_text}
use climatik_project.Alert.Progress.{Steps, start, step, send_alert_completes}
use climatik_project.Alert.Posts.{all_posts, Runs-sent}
use climatik_project.Alert.Setup.{
  AreFor, IsCreatable, subscribers_of, new_alert_service-ok_iff, new_alert_service-subscribes,
}

new_alert_service-subscribes_example :
    AreFor example_config (subscribers_of topic_alerts subscribed.pubsub)
    × ((topic : String) → topic_alerts ≢ topic → subscribers_of topic subscribed.pubsub ≡ [])
new_alert_service-subscribes_example =
    new_alert_service-subscribes accepting_client example_config empty_world subscribed
      new_service_ok

web-NoSlash : NoSlash "web"
web-NoSlash = (omega arith, (omega arith, (omega arith, tt)))

api-NoSlash : NoSlash "api"
api-NoSlash = (omega arith, (omega arith, (omega arith, tt)))

create_alert_stores_example :
    ((GitOps.create_alert example_time example_git_ops example_args empty_world).0 ≡ none)
    × (lookup (alert_file "/repo" "web") (
          get_alerts example_git_ops
            (GitOps.create_alert example_time example_git_ops example_args empty_world).1)
        ≡ some (format_alert_message example_time "web" (pos 90) example_args.devices))
    × (lookup (alert_file "/repo" "api") (
          get_alerts example_git_ops
            (GitOps.create_alert example_time example_git_ops example_args empty_world).1)
        ≡ lookup (alert_file "/repo" "api") (get_alerts example_git_ops empty_world))
create_alert_stores_example =
    create_alert_stores example_time example_git_ops example_args empty_world "api" web-NoSlash
      api-NoSlash (ground (arith, eq_iff "web" "api"))

abbrev example_prometheus : PrometheusAlertManager
example_prometheus = record { alertmanager_url = "http://alertmanager/api/v1/alerts" }

create_alert-IsAcceptedBy_example :
    ((Prometheus.create_alert example_client example_prometheus example_args empty_world).0 ≡ none)
    ↔ IsAcceptedBy example_client example_prometheus example_args empty_world
        (Prometheus.create_alert example_client example_prometheus example_args empty_world).1
create_alert-IsAcceptedBy_example =
    create_alert-IsAcceptedBy example_client example_prometheus example_args empty_world

-- Both goroutines of one alert have begun their calls.
