-- ===== src/Controller/Pods/Alerts.antt =====
-- From a finished watch to the alerts: what they say, and that they arrive.
use climatik_project.Prelude.{
  String, ◌≡◌, refl, sym, ap, ◌≢◌, ◌∙◌, some, List, [], ◌∷◌, map, true, ==-eq-false, subst, All,
  if◌then◌else◌,
}
use climatik_project.Prelude.Int.{pos, is_pos}
use climatik_project.Go.Result.{ok, err, ret}
use climatik_project.Go.Map.{get}
use climatik_project.Go.Client.{Client}
use climatik_project.Go.Duration.{print_duration}
use climatik_project.Go.Float.{Float}
use climatik_project.Alert.World.{World, AlertArgs}
use climatik_project.Alert.Manager.{AlertManager}
use climatik_project.Alert.PubSub.{Task, publish}
use climatik_project.Alert.Service.{AlertService, send_alert, topic_alerts}
use climatik_project.Alert.Delivery.{IsStored, Runs, send_alert_delivers}
use climatik_project.Controller.Metrics.{Querier, get_pod_devices, query_pod_peak_power}
use climatik_project.Controller.Power.{
  Event, tick, get_power_cap_percentage, watch_pod_power_usage, watch_loop, calculate_power_cap,
}
use climatik_project.Controller.Cluster.{Pod, Cluster}
use climatik_project.Controller.Pods.Selection.{label_of, handle_pod_add_iff}
use climatik_project.Controller.Pods.{
  WatchJob, Object, pod, other, handle_pod_add, mock_power_capping_config, create_alert, finish_job,
  run_job,
}

module _ (f : Float) (query : Querier f) (service : AlertService) (job : WatchJob) where
  -- The alert that a peak should raise.
  abbrev pub alert_for : f.F → AlertArgs
  alert_for peak = record {
    pod_name = job.pod.name;
    power_cap_value = f.to_int (
        f.div (f.mul peak (f.of_int (get_power_cap_percentage job.power_cap_label)))
          (f.of_int (pos 100)));
    devices = get_pod_devices f query job.pod.name;
    config = mock_power_capping_config;
  }

  abbrev pub tasks_for : AlertArgs → List Task
  tasks_for a =
      map (λ (m : AlertManager). record { manager = m; args = a })
        (get [] topic_alerts service.pubsub.subscribers)

  finish_job-ok :
      (peak : f.F) → finish_job f query service job (ok peak) ≡ tasks_for (alert_for peak)
  unfolding finish_job calculate_power_cap create_alert send_alert publish
  finish_job-ok peak = refl

  -- When the ticker of a usable window fires and Prometheus reports a peak, the goroutine starts
  -- exactly one alert for each subscriber of "alerts", in the order of subscription: for the
  -- pod, with the label's share of the larger of the reported power and zero, the pod's devices and the
  -- built-in mock configuration. Later events change nothing.
  pub run_job_alerts :
      (events : List Event) (current : f.F)
      → is_pos job.duration ≡ true
      → query_pod_peak_power f query job.pod.name (print_duration job.duration) ≡ ok current
      → run_job f query service job (tick ∷ events)
        ≡ ret (some (tasks_for (alert_for (if f.gt current f.zero then current else f.zero))))
  unfolding run_job watch_pod_power_usage watch_loop
  run_job_alerts events current positive reported = rw (positive, reported, finish_job-ok _)

  -- If Prometheus reports an error, the goroutine ends without an alert.
  pub run_job_failed :
      (events : List Event) (e : String)
      → is_pos job.duration ≡ true
      → query_pod_peak_power f query job.pod.name (print_duration job.duration) ≡ err e
      → run_job f query service job (tick ∷ events) ≡ ret (some [])
  unfolding run_job watch_pod_power_usage watch_loop finish_job
  run_job_failed events e positive reported = rw (positive, reported)

  -- After such a tick, whatever the order in which the goroutines of the alerts run, every GitOps
  -- manager that is subscribed holds the alert of the pod.
  pub run_job_delivers :
      (c : Client) (events : List Event) (current : f.F) (tasks : List Task) (w w' : World)
      → is_pos job.duration ≡ true
      → query_pod_peak_power f query job.pod.name (print_duration job.duration) ≡ ok current
      → run_job f query service job (tick ∷ events) ≡ ret (some tasks)
      → Runs f c tasks w w'
      → All
          (IsStored c w' (alert_for (if f.gt current f.zero then current else f.zero)))
          (get [] topic_alerts service.pubsub.subscribers)
  run_job_delivers c events current tasks w w' positive reported ran r =
      let a = alert_for (if f.gt current f.zero then current else f.zero) in
      let same : tasks_for a ≡ tasks = cc (run_job_alerts events current positive reported) in
      send_alert_delivers f c a service w w'
        (unfold send_alert publish in subst (λ ts. Runs f c ts w w') (sym same) r)

other_label-percentage :
    (label : String)
    → label ≢ "high"
    → label ≢ "medium"
    → label ≢ "low"
    → get_power_cap_percentage label ≡ pos 0
unfolding get_power_cap_percentage
other_label-percentage label high medium low =
    rw (
      ==-eq-false label "high" high,
      ==-eq-false label "medium" medium,
      ==-eq-false label "low" low,
    )

All-tasks_for :
    (a : AlertArgs) (P : AlertArgs → Type 0)
    → P a
    → (ms : List AlertManager)
    → All (λ (t : Task). P t.args) (map (λ (m : AlertManager). record { manager = m; args = a }) ms)
All-tasks_for a P h [] = tt
All-tasks_for a P h (m ∷ ms) = (h, All-tasks_for a P h ms)

abbrev object_label : Object → String
object_label (pod p) = label_of p
object_label other = ""

-- `getPowerCapPercentage` reads the label, which is also the name of the configuration: for a
-- configuration with any name but "high", "medium" and "low", every alert of its pods carries the
-- cap of 0 percent of the peak.
pub other_label_caps_at_zero :
    (f : Float) (query : Querier f) (service : AlertService) (cluster : Cluster) (p : Pod)
    (job : WatchJob) (peak : f.F)
    → handle_pod_add cluster (pod p) ≡ some job
    → label_of p ≢ "high"
    → label_of p ≢ "medium"
    → label_of p ≢ "low"
    → All
        (λ (t : Task). t.args.power_cap_value ≡ f.to_int (calculate_power_cap f peak (pos 0)))
        (finish_job f query service job (ok peak))
other_label_caps_at_zero f query service cluster p job peak added high medium low =
    let selected = (handle_pod_add_iff cluster (pod p) job).0 added in
    let label : job.power_cap_label ≡ label_of p =
      selected.same_label ∙ ap object_label (sym selected.is_pod) in
    let none_set : get_power_cap_percentage job.power_cap_label ≡ pos 0 =
      ap get_power_cap_percentage label ∙ other_label-percentage (label_of p) high medium low in
    subst
      (All (λ (t : Task). t.args.power_cap_value ≡ f.to_int (calculate_power_cap f peak (pos 0))))
      (sym (finish_job-ok f query service job peak))
      (All-tasks_for (alert_for f query service job peak)
        (λ a. a.power_cap_value ≡ f.to_int (calculate_power_cap f peak (pos 0)))
        (unfold calculate_power_cap in
          ap (λ i. f.to_int (f.div (f.mul peak (f.of_int i)) (f.of_int (pos 100)))) none_set)
        (get [] topic_alerts service.pubsub.subscribers))
