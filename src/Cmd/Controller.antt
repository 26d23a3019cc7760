-- ===== src/Cmd/Controller.antt =====
-- cmd/controller/main.go
pub mod Exits
use climatik_project.Prelude.{
  ℕ, String, Bool, true, false, Option, none, some, List, [], ◌∷◌, if◌then◌else◌,
}
use climatik_project.Go.Result.{Result, ok, err, Failure}
use climatik_project.Go.Map.{Map}
use climatik_project.Alert.World.{World}
use climatik_project.Alert.Service.{AlertService, new_alert_service}
use climatik_project.Controller.Informer.{ManagerEnv, SetupStep, get_env, setup_with_manager}

pub record Flags : Type 0 where
  pub metrics_addr : String
  pub enable_leader_election : Bool
  pub secure_metrics : Bool
  pub enable_http2 : Bool

-- The values without flags on the command line.
abbrev pub default_flags : Flags
default_flags = record {
  metrics_addr = ":8080";
  enable_leader_election = false;
  secure_metrics = false;
  enable_http2 = false;
}

-- Of `tls.Config`, what the program sets.
pub record TlsConfig : Type 0 where
  pub next_protos : List String

unfoldable pub disable_http2 : TlsConfig → TlsConfig
disable_http2 c = record c { next_protos = "http/1.1" ∷ [] }

unfoldable pub tls_opts : Bool → List (TlsConfig → TlsConfig)
tls_opts enable_http2 = if enable_http2 then [] else disable_http2 ∷ []

-- `ctrl.Options`, with the options of the metrics and of the webhook server.
pub record ManagerOptions : Type 0 where
  pub metrics_bind_address : String
  pub metrics_secure_serving : Bool
  pub metrics_tls_opts : List (TlsConfig → TlsConfig)
  pub webhook_tls_opts : List (TlsConfig → TlsConfig)
  pub leader_election : Bool
  pub leader_election_id : String

unfoldable pub manager_options : Flags → ManagerOptions
manager_options f = record {
  metrics_bind_address = f.metrics_addr;
  metrics_secure_serving = f.secure_metrics;
  metrics_tls_opts = tls_opts f.enable_http2;
  webhook_tls_opts = tls_opts f.enable_http2;
  leader_election = f.enable_leader_election;
  leader_election_id = "cf3a8ad7.climatik-project.io";
}

-- `os.Getenv`: the empty text for an unset variable.
abbrev pub Environment : Type 0
Environment = String → String

unfoldable pub alert_config : Environment → Map (Map String)
alert_config getenv =
    ("prometheus", ("prometheusAddress", getenv "PROMETHEUS_HOST") ∷ [])
    ∷ ("gitops", ("repoURL", getenv "GITOPS_REPO_URL") ∷ ("repoDir", getenv "GITOPS_REPO_DIR") ∷ [])
    ∷ (
      "slack",
      ("webhookURL", getenv "SLACK_WEBHOOK_URL")
          ∷ ("token", getenv "SLACK_TOKEN")
          ∷ ("channel", getenv "SLACK_CHANNEL")
          ∷ [],
    )
    ∷ []

-- What the program calls, and what surrounds it.
pub record MainEnv : Type 0 where
  -- the environment in which the process starts
  pub process_env : Environment
  -- `godotenv.Load`: its error, and the environment afterwards
  pub load_env : Environment → Failure × Environment
  -- the two registrations of `init`
  pub add_client_go_scheme : Failure
  pub add_to_scheme : Failure
  -- the values after `flag.Parse`, which ends the program itself on a wrong command line
  pub flags : Flags
  -- `ctrl.GetConfigOrDie` ends the program with status 1 on an error
  pub get_config : Failure
  pub new_manager : ManagerOptions → Failure
  -- the Prometheus library's `NewClient`, by the address
  pub new_client : String → Failure
  -- the order in which a loop visits a map
  pub visit : Map (Map String) → Map (Map String)
  pub manager : ManagerEnv
  pub start : Failure

pub data Exit : Type 0 where
  returned : Exit
  exited : ℕ → Exit
  panicked : Exit

-- How the program ends, with the alert service and the steps of the reconciler's set-up.
pub record Outcome : Type 0 where
  pub exit : Exit
  pub service : Option AlertService
  pub steps : List SetupStep
  pub world : World

abbrev stopped : Exit → World → Outcome
stopped exit w = record { exit = exit; service = none; steps = []; world = w }

-- A failed call ends the program.
abbrev or_stop : Failure → Exit → World → Outcome → Outcome
or_stop (some e) exit w rest = stopped exit w
or_stop none exit w rest = rest

abbrev exit_of : Failure → Failure → Exit
exit_of (some e) start = exited 1
exit_of none (some e) = exited 1
exit_of none none = returned

-- `PrometheusURL`, a variable of the controller's package, is set before `main` runs.
unfoldable pub prometheus_url : MainEnv → String
unfolding get_env
prometheus_url m = get_env (m.process_env "PROM_URL") "http://prometheus:9090"

-- `SetupWithManager`, and `Start` if it succeeds.
unfoldable pub run_controller : MainEnv → AlertService → World → Outcome
unfolding prometheus_url
run_controller m service w =
    let (failure, steps) = setup_with_manager m.manager (prometheus_url m) in
    record { exit = exit_of failure m.start; service = some service; steps = steps; world = w }

abbrev with_alert_service : MainEnv → Result AlertService × World → Outcome
with_alert_service m (err e, w) = stopped (exited 1) w
with_alert_service m (ok service, w) = run_controller m service w

-- The environment after the `.env` file was read; an error is only logged.
abbrev pub loaded_env : MainEnv → Environment
loaded_env m = (m.load_env m.process_env).1

-- `init`, where `utilruntime.Must` panics on an error, and `main`.
unfoldable pub main : MainEnv → World → Outcome
unfolding run_controller
main m w = or_stop m.add_client_go_scheme panicked w (
    or_stop m.add_to_scheme panicked w (
      or_stop m.get_config (exited 1) w (
        or_stop (m.new_manager (manager_options m.flags)) (exited 1) w (
          with_alert_service m
            (new_alert_service m.new_client (m.visit (alert_config (loaded_env m))) w)))))
