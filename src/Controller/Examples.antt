-- ===== src/Controller/Examples.antt =====
-- The theorems on the controller at one pod, one configuration and one reported power.
use mathlib.Core.List.{perm_append_comm}
use climatik_project.Prelude.{
  none, String, some, List, [], ◌∷◌, ◌≡◌, ◌↔◌, ◌⊎◌, refl, arith, eq_iff, All, false, ltb,
  if◌then◌else◌,
}
use climatik_project.Prelude.Int.{pos, scale}
use climatik_project.Go.Result.{ok, err, ret, panic}
use climatik_project.Go.Map.{get, lookup}
use climatik_project.Go.Duration.{second, seconds, print_duration}
use climatik_project.Go.Float.Whole.{whole, whole-FloatLaws}
use climatik_project.Alert.World.{World, AlertArgs}
use climatik_project.Alert.PubSub.{Task}
use climatik_project.Alert.Service.{topic_alerts}
use climatik_project.Alert.Manager.{git_ops, slack}
use climatik_project.Alert.Delivery.{Runs, next, run_task, IsStored}
use climatik_project.Alert.Fixtures.{
  example_client, example_slack, empty_world, example_git_ops, example_service,
}
use climatik_project.Controller.Cluster.{Pod, Cluster, found}
use climatik_project.Controller.Metrics.{
  Sample, vector, Querier, kepler_query, get_kepler_metrics, query_pod_peak_power, kepler_result,
  find_sample, find_label,
}
use climatik_project.Controller.Metrics.Labels.{
  AreReordered, IsFirstWith, get_kepler_metrics-reordered, get_kepler_metrics-IsFirstWith,
}
use climatik_project.Controller.Power.{
  tick, watch_loop, watch_pod_power_usage, calculate_power_cap, get_power_cap_percentage,
}
use climatik_project.Controller.Power.Window.{IsUsable, watch_window}
use climatik_project.Controller.Power.Cap.{caps_ordered}
use climatik_project.Controller.Pods.{
  pod, Object, WatchJob, handle_pod_add, on_answer, finish_job, run_job, label_key,
  mock_power_capping_config,
}
use climatik_project.Controller.Pods.Selection.{
  label_of, IsSelected, with_percentage, handle_pod_add_iff, handle_pod_add-ignores_percentage,
}
use climatik_project.Controller.Pods.Alerts.{
  alert_for, tasks_for, run_job_alerts, run_job_delivers, other_label_caps_at_zero,
}
use climatik_project.Controller.Informer.{started}
use climatik_project.Controller.Informer.Reports.{
  Watched, nothing, selected, passed, history, started-history,
}

abbrev example_pod : String → Pod
example_pod label = record { name = "web"; namespace = "default"; labels = (label_key, label) ∷ [] }

abbrev example_cluster : Cluster
example_cluster namespace name = found mock_power_capping_config

abbrev example_job : String → WatchJob
example_job label = record {
  pod = example_pod label;
  power_cap_label = label;
  duration = pos 30000000000;
}

abbrev example_samples : List (Sample whole)
example_samples = record { metric = ("package", "0") ∷ ("gpu", "1") ∷ []; value = 100 } ∷ []

abbrev reordered_samples : List (Sample whole)
reordered_samples = record { metric = ("gpu", "1") ∷ ("package", "0") ∷ []; value = 100 } ∷ []

abbrev example_query : Querier whole
example_query query = ok (vector example_samples)

abbrev reordered_query : Querier whole
reordered_query query = ok (vector reordered_samples)

abbrev failing_query : Querier whole
failing_query query = err "connection refused"

peak_reported :
    query_pod_peak_power whole example_query "web" (print_duration (pos 30000000000)) ≡ ok 100
unfolding query_pod_peak_power
peak_reported = refl

alerts_run :
    run_job whole example_query example_service (example_job "high") (tick ∷ [])
    ≡ ret (
        some (
          tasks_for whole example_query example_service (example_job "high") (
            alert_for whole example_query example_service
              (example_job "high")
              (if ltb 0 100 then 100 else 0))))
alerts_run =
    run_job_alerts whole example_query example_service (example_job "high") [] 100 refl
      peak_reported

abbrev example_alert : AlertArgs
example_alert = alert_for whole example_query example_service (example_job "high") 100

abbrev example_tasks : List Task
example_tasks = tasks_for whole example_query example_service (example_job "high") example_alert

abbrev slack_task : Task
slack_task = record { manager = slack example_slack; args = example_alert }

abbrev git_ops_task : Task
git_ops_task = record { manager = git_ops example_git_ops; args = example_alert }

abbrev final_world : World
final_world =
    run_task whole example_client git_ops_task
      (run_task whole example_client slack_task empty_world)

slack_first : Runs whole example_client example_tasks empty_world final_world
unfolding get lookup
slack_first = next (git_ops_task ∷ []) slack_task [] refl (next [] git_ops_task [] refl Runs.done)

run_job_delivers_example :
    All
      (IsStored example_client final_world (
        alert_for whole example_query example_service
          (example_job "high")
          (if ltb 0 100 then 100 else 0)))
      (get [] topic_alerts example_service.pubsub.subscribers)
run_job_delivers_example =
    run_job_delivers whole example_query example_service (example_job "high") example_client [] 100
      example_tasks empty_world final_world refl peak_reported alerts_run slack_first

handle_pod_add_iff_example :
    (handle_pod_add example_cluster (pod (example_pod "high")) ≡ some (example_job "high"))
    ↔ IsSelected example_cluster (pod (example_pod "high")) (example_job "high")
handle_pod_add_iff_example =
    handle_pod_add_iff example_cluster (pod (example_pod "high")) (example_job "high")

handle_pod_add-ignores_percentage_example :
    handle_pod_add
      (λ namespace name. with_percentage (λ config. pos 10) (example_cluster namespace name))
      (pod (example_pod "high"))
    ≡ handle_pod_add example_cluster (pod (example_pod "high"))
handle_pod_add-ignores_percentage_example =
    handle_pod_add-ignores_percentage example_cluster (λ config. pos 10) (pod (example_pod "high"))

eco_added : handle_pod_add example_cluster (pod (example_pod "eco")) ≡ some (example_job "eco")
unfolding handle_pod_add on_answer seconds get lookup
eco_added = refl

eco_label : label_of (example_pod "eco") ≡ "eco"
unfolding get lookup
eco_label = refl

other_label_caps_at_zero_example :
    All
      (λ (t : Task). t.args.power_cap_value ≡ whole.to_int (calculate_power_cap whole 100 (pos 0)))
      (finish_job whole example_query example_service (example_job "eco") (ok 100))
other_label_caps_at_zero_example =
    other_label_caps_at_zero whole example_query example_service example_cluster (example_pod "eco")
      (example_job "eco") 100 eco_added (rw eco_label (ground (arith, eq_iff "eco" "high")))
      (rw eco_label (ground (arith, eq_iff "eco" "medium")))
      (rw eco_label (ground (arith, eq_iff "eco" "low")))

watch_window_example :
    (IsUsable (pos 0)
      × (watch_pod_power_usage whole example_query "web" (seconds (pos 0)) (tick ∷ [])
          ≡ ret (watch_loop whole example_query "web" (scale (pos 0) second) (tick ∷ []) 0)))
    ⊎ ((¬ IsUsable (pos 0))
        × (watch_pod_power_usage whole example_query "web" (seconds (pos 0)) (tick ∷ [])
            ≡ panic "non-positive interval for NewTicker"))
watch_window_example = watch_window whole example_query "web" (pos 0) (tick ∷ []) (omega arith)

watch_ends : watch_loop whole example_query "web" (pos 30000000000) (tick ∷ []) 0 ≡ some (ok 100)
unfolding watch_loop
watch_ends = rw peak_reported

caps_ordered_example :
    (whole.gt
        (calculate_power_cap whole 100 (get_power_cap_percentage "low"))
        (calculate_power_cap whole 100 (get_power_cap_percentage "medium"))
      ≡ false)
    × (whole.gt
          (calculate_power_cap whole 100 (get_power_cap_percentage "medium"))
          (calculate_power_cap whole 100 (get_power_cap_percentage "high"))
        ≡ false)
caps_ordered_example =
    caps_ordered {f = whole} whole-FloatLaws example_query "web" (pos 30000000000) (tick ∷ []) 100
      watch_ends

metrics_reordered : AreReordered whole example_samples reordered_samples
unfolding lookup
metrics_reordered =
    ((refl, (refl, tt)), perm_append_comm (("package", "0") ∷ []) (("gpu", "1") ∷ []), refl, tt)

get_kepler_metrics-reordered_example :
    get_kepler_metrics whole example_query "web" "gpu"
    ≡ get_kepler_metrics whole reordered_query "web" "gpu"
get_kepler_metrics-reordered_example =
    get_kepler_metrics-reordered whole example_query reordered_query "web" "gpu" example_samples
      reordered_samples refl refl metrics_reordered

gpu_metrics : get_kepler_metrics whole example_query "web" "gpu" ≡ ok (100, "1")
unfolding get_kepler_metrics kepler_result find_sample find_label
gpu_metrics = refl

get_kepler_metrics-IsFirstWith_example :
    (samples : List (Sample whole)) × (example_query (kepler_query "gpu" "web")
      ≡ ok (vector samples))
    × IsFirstWith whole "gpu" samples (100, "1")
get_kepler_metrics-IsFirstWith_example =
    get_kepler_metrics-IsFirstWith whole example_query "web" "gpu" (100, "1") gpu_metrics

unlabelled_added : handle_pod_add example_cluster (pod (example_pod "")) ≡ none
unfolding handle_pod_add get lookup
unlabelled_added = refl

unlabelled_passed : (job : WatchJob) → ¬ IsSelected example_cluster (pod (example_pod "")) job
unlabelled_passed job h =
    let added = (handle_pod_add_iff example_cluster (pod (example_pod "")) job).1 h in
    let none_added = unlabelled_added in cc

eco-IsSelected : IsSelected example_cluster (pod (example_pod "eco")) (example_job "eco")
eco-IsSelected =
    (handle_pod_add_iff example_cluster (pod (example_pod "eco")) (example_job "eco")).0 eco_added

-- A pod that is labelled after it was added, and then reported once more as it is.
abbrev labelled_later : List (Cluster × Object)
labelled_later =
    (example_cluster, pod (example_pod "eco")) ∷ (example_cluster, pod (example_pod "eco")) ∷ []

started-history_example :
    (started (history example_cluster (pod (example_pod "")) labelled_later)
      ≡ example_job "eco" ∷ example_job "eco" ∷ [])
    ↔ Watched
        ((example_cluster, pod (example_pod "")) ∷ labelled_later)
        (example_job "eco" ∷ example_job "eco" ∷ [])
started-history_example =
    started-history example_cluster (pod (example_pod "")) labelled_later
      (example_job "eco" ∷ example_job "eco" ∷ [])

labelled_later-Watched :
    Watched
      ((example_cluster, pod (example_pod "")) ∷ labelled_later)
      (example_job "eco" ∷ example_job "eco" ∷ [])
labelled_later-Watched =
    passed unlabelled_passed (selected eco-IsSelected (selected eco-IsSelected nothing))
