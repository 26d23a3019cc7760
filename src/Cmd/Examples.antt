-- ===== src/Cmd/Examples.antt =====
-- The theorems on the programs in an environment that a .env file sets, with libraries that succeed.
use mathlib.Core.List.{Perm}
use mathlib.Core.List.Perm
use climatik_project.Prelude.{String, ◌≡◌, ◌≢◌, ◌↔◌, ◌⊎◌, refl, none, [], ◌∷◌, map, true}
use climatik_project.Go.Map.{get, lookup, insert}
use climatik_project.Alert.Fixtures.{empty_world}
use climatik_project.Alert.Manager.{prometheus, git_ops, slack, new_alert_manager}
use climatik_project.Alert.Prometheus.{new_prometheus_alert_manager}
use climatik_project.Alert.GitOps.{new_git_ops_alert_manager}
use climatik_project.Alert.PubSub.{subscribe}
use climatik_project.Alert.Service.{
  AlertService, new_alert_service, subscribe_all, create_alert_service, topic_alerts,
}
use climatik_project.Alert.Setup.{subscribers_of}
use climatik_project.Alert.Destinations.{alertmanager, repository, hook, destination}
use climatik_project.Controller.Informer.{setup_with_manager}
use climatik_project.Cmd.Controller.{
  MainEnv, Environment, returned, default_flags, alert_config, run_controller, main,
}
use climatik_project.Cmd.Controller.Exits.{
  VisitsAll, EveryCallSucceeds, main-returns_iff, main-destinations,
}
use climatik_project.Webhook.Server.{Mux, fatal, served, ServerEnv}
use climatik_project.Webhook.Server.Routes.{ServesOnlyAlerts}
use climatik_project.Cmd.Webhook
use climatik_project.Cmd.Webhook.Served.{main_serves}

abbrev dot_env : Environment
dot_env name = get "" name (
    ("PROMETHEUS_HOST", "http://prometheus:9090")
    ∷ ("GITOPS_REPO_DIR", "/repo")
    ∷ ("SLACK_WEBHOOK_URL", "http://hooks")
    ∷ [])

abbrev example_env : MainEnv
example_env = record {
  process_env = λ name. "";
  load_env = λ process. (none, dot_env);
  add_client_go_scheme = none;
  add_to_scheme = none;
  flags = default_flags;
  get_config = none;
  new_manager = λ options. none;
  new_client = λ address. none;
  visit = λ config. config;
  manager = record {
    new_for_config = none;
    add_runnable = none;
    wait_for_cache_sync = true;
    new_prometheus_client = λ address. none;
    complete = none;
  };
  start = none;
}

example-VisitsAll : VisitsAll example_env
example-VisitsAll config = Perm.refl config

main-returns_iff_example :
    ((main example_env empty_world).exit ≡ returned) ↔ EveryCallSucceeds example_env
main-returns_iff_example = main-returns_iff example_env example-VisitsAll empty_world

abbrev three_managers : AlertService
three_managers = record {
  pubsub = record {
    subscribers =
        (
          topic_alerts,
          prometheus (record { alertmanager_url = "http://prometheus:9090/api/v1/alerts" })
              ∷ git_ops (record { repo_dir = "/repo"; alerts = 0 })
              ∷ slack (record { webhook_url = "http://hooks" })
              ∷ [],
        )
        ∷ [];
  };
}

main-destinations_example :
    Perm (map destination (subscribers_of topic_alerts three_managers.pubsub)) (
      alertmanager "http://prometheus:9090/api/v1/alerts"
      ∷ repository "/repo"
      ∷ hook "http://hooks"
      ∷ [])
unfolding main run_controller setup_with_manager new_alert_service create_alert_service
    subscribe_all new_alert_manager new_prometheus_alert_manager new_git_ops_alert_manager subscribe
    alert_config get lookup insert
main-destinations_example =
    main-destinations example_env example-VisitsAll empty_world three_managers refl

-- The cluster can be reached, and serving ends at once.
abbrev example_server : ServerEnv
example_server = record {
  build_config = none;
  new_dynamic = none;
  listen_and_serve = λ address routes. "address already in use";
}

abbrev some_secret : String
some_secret = "secret"

abbrev some_token : String
some_token = "token"

main_serves_example :
    ((some_secret ≢ "")
      × (some_token ≢ "")
      × ((routes : Mux) × (message : String) × (Webhook.main example_server some_secret some_token
            ≡ served ":8080" routes message)
          × ServesOnlyAlerts routes))
    ⊎ (((some_secret ≡ "") ⊎ (some_token ≡ ""))
        × ((message : String) × (Webhook.main example_server some_secret some_token
              ≡ fatal message)))
main_serves_example = main_serves example_server some_secret some_token
