-- ===== src/Alert/Fixtures.antt =====
-- A service with a GitOps and a Slack manager, and a client that accepts everything.
use climatik_project.Go.Client.{Client, Time}
use climatik_project.Alert.Slack.{SlackAlertManager}
use climatik_project.Prelude.{String, none, List, [], ◌∷◌, ◌≡◌, refl}
use climatik_project.Prelude.Int.{pos}
use climatik_project.Go.Result.{ok, Failure}
use climatik_project.Go.Map.{Map, get, lookup, insert}
use climatik_project.Controller.Pods.{mock_power_capping_config}
use climatik_project.Alert.World.{World, AlertArgs}
use climatik_project.Alert.GitOps.{new_git_ops_alert_manager, GitOpsAlertManager}
use climatik_project.Alert.Manager.{AlertManager, git_ops, slack, new_alert_manager}
use climatik_project.Alert.PubSub.{subscribe}
use climatik_project.Alert.Service.{
  AlertService, new_alert_service, subscribe_all, create_alert_service, topic_alerts,
}

abbrev pub example_time : Time
example_time = record { rfc3339 = "2024-06-01T00:00:00Z"; rfc3339_nano = "2024-06-01T00:00:00.5Z" }

abbrev pub example_client : Client
example_client = record {
  now = example_time;
  marshal = λ json. ok "{}";
  new_request = λ url. none;
  send = λ post. ok (record { status_code = 200; status = "200 OK" });
}

abbrev pub empty_world : World
empty_world = record { stores = λ i. []; next = 0; sent = [] }

abbrev pub example_git_ops : GitOpsAlertManager
example_git_ops = record { repo_dir = "/repo"; alerts = 0 }

abbrev pub example_slack : SlackAlertManager
example_slack = record { webhook_url = "https://hook" }

abbrev pub example_managers : List AlertManager
example_managers = git_ops example_git_ops ∷ slack example_slack ∷ []

abbrev pub example_service : AlertService
example_service = record { pubsub = record { subscribers = (topic_alerts, example_managers) ∷ [] } }

abbrev pub example_args : AlertArgs
example_args = record {
  pod_name = "web";
  power_cap_value = pos 90;
  devices = ("package", "0") ∷ ("gpu", "1") ∷ [];
  config = mock_power_capping_config;
}

abbrev pub other_args : AlertArgs
other_args = record example_args { pod_name = "batch" }

abbrev pub example_config : Map (Map String)
example_config =
    ("slack", ("webhookURL", "https://hook") ∷ [])
    ∷ ("gitops", ("repoDir", "/repo") ∷ ("repoURL", "https://git") ∷ [])
    ∷ []

abbrev pub accepting_client : String → Failure
accepting_client address = none

abbrev pub subscribed : AlertService
subscribed = record {
  pubsub = record {
    subscribers = (topic_alerts, slack example_slack ∷ git_ops example_git_ops ∷ []) ∷ [];
  };
}

pub new_service_ok :
    (new_alert_service accepting_client example_config empty_world).0 ≡ ok subscribed
unfolding new_alert_service create_alert_service subscribe_all new_alert_manager subscribe insert
    get lookup new_git_ops_alert_manager
new_service_ok = refl
