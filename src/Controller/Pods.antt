-- ===== src/Controller/Pods.antt =====
-- The pod handlers: which pods are watched, and the alert that a finished watch raises.
pub mod Selection
pub mod Alerts
use climatik_project.Prelude.{ℕ, String, Option, none, some, List, [], ◌∷◌, ◌==◌, if◌then◌else◌}
use climatik_project.Prelude.Int.{ℤ, pos}
use climatik_project.Go.Result.{Result, ok, err, Call, ret, panic, ◌>>=◌}
use climatik_project.Go.Duration.{seconds}
use climatik_project.Go.Map.{Map, get}
use climatik_project.Go.Float.{Float}
use climatik_project.Api.{PowerCappingConfig, relative_of_peak, no_power_capping_spec}
use climatik_project.Alert.World.{AlertArgs}
use climatik_project.Alert.PubSub.{Task}
use climatik_project.Alert.Service.{AlertService, send_alert}
use climatik_project.Controller.Cluster.{Pod, Cluster, Answer, found, not_found, failed}
use climatik_project.Controller.Metrics.{Querier, get_pod_devices}
use climatik_project.Controller.Power.{
  Event, get_power_cap_percentage, watch_pod_power_usage, calculate_power_cap,
}

abbrev pub label_key : String
label_key = "climatik-project.io"

-- What an informer hands to a handler: a pod, or something else.
pub data Object : Type 0 where
  pod : Pod → Object
  other : Object

-- The goroutine that `handlePodAdd` starts, with the variables that it captures.
pub record WatchJob : Type 0 where
  pub pod : Pod
  pub power_cap_label : String
  pub duration : ℤ

-- The goroutine that a relative cap asks for.
abbrev pub new_job : Pod → String → PowerCappingConfig → WatchJob
new_job p label config = record {
  pod = p;
  power_cap_label = label;
  duration = seconds config.spec.power_capping_spec.relative.sample_window;
}

-- The error branches, and the `switch` on the kind of the configuration.
unfoldable pub on_answer : Pod → String → Answer → Option WatchJob
on_answer p label (found config) =
    if config.spec.power_capping_spec.kind == relative_of_peak
    then some (new_job p label config)
    else none
on_answer p label (not_found e) = none
on_answer p label (failed e) = none

-- `handlePodAdd`, also called for updates; every branch without a goroutine only logs.
unfoldable pub handle_pod_add : Cluster → Object → Option WatchJob
handle_pod_add cluster other = none
handle_pod_add cluster (pod p) =
    let label = get "" label_key p.labels in
    if label == "" then none else on_answer p label (cluster p.namespace label)

-- `handlePodDelete` does nothing.
unfoldable pub handle_pod_delete : Object → Option WatchJob
handle_pod_delete object = none

-- `NewMockPowerCappingConfig`, which `createAlert` passes on.
abbrev pub mock_power_capping_config : PowerCappingConfig
mock_power_capping_config = record {
  name = "test-powercapping-config";
  namespace = "default";
  spec = record {
    workload_type = "training";
    efficiency_level = "High";
    power_capping_spec = record {
      kind = relative_of_peak;
      absolute = record { power_cap_in_watts = pos 0 };
      relative = record { power_cap_percentage = pos 80; sample_window = pos 30 };
    };
    temperature_threshold_spec = record {
      kind = "";
      absolute = record { temperature_threshold_in_celsius = pos 0 };
      relative = record { temperature_threshold_percentage = pos 0; sample_window = pos 0 };
    };
  };
  status = record { current_power_consumption = pos 50; forecast_power_consumption = pos 75 };
}

unfoldable pub create_alert : AlertService → Pod → ℤ → Map String → List Task
create_alert service p power_cap device_labels =
    send_alert
      (record {
        pod_name = p.name;
        power_cap_value = power_cap;
        devices = device_labels;
        config = mock_power_capping_config;
      })
      service

module _ (f : Float) where
  -- The end of the goroutine; a failed watch is only logged.
  unfoldable pub finish_job : Querier f → AlertService → WatchJob → Result f.F → List Task
  finish_job query service job (err e) = []
  finish_job query service job (ok peak_power) =
      let percentage = get_power_cap_percentage job.power_cap_label in
      let power_cap = calculate_power_cap f peak_power percentage in
      create_alert service job.pod (f.to_int power_cap) (get_pod_devices f query job.pod.name)

  abbrev pub after_watch :
      Querier f → AlertService → WatchJob → Option (Result f.F) → Option (List Task)
  after_watch query service job none = none
  after_watch query service job (some r) = some (finish_job query service job r)

  -- The goroutine, over the events of its watch: it panics, still waits, or starts alerts.
  unfoldable pub run_job :
      Querier f → AlertService → WatchJob → List Event → Call (Option (List Task))
  run_job query service job events = do
    watched ← watch_pod_power_usage f query job.pod.name job.duration events
    ret (after_watch query service job watched)
