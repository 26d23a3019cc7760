-- ===== src/Alert/Prometheus.antt =====
-- internal/alert/adapters/prom_alert.go
pub mod Description
pub mod Accepted
use Prim.Native.String.{◌++◌, len, slice}
use climatik_project.Prelude.{
  ℕ, ◌-◌, String, Option, none, some, List, [], ◌∷◌, ltb, nat_eq, if◌then◌else◌,
}
use climatik_project.Prelude.Int.{ℤ}
use climatik_project.Go.Result.{Error, Result, ok, err, Failure}
use climatik_project.Go.Text.{concat, print_int}
use climatik_project.Go.Map.{Map}
use climatik_project.Go.Json.{Json, str, arr, obj, nil, cons, end, field, of_map}
use climatik_project.Go.Http.{Post, status_ok}
use climatik_project.Go.Client.{Client, Time, Reply}
use climatik_project.Alert.World.{World, log_post, AlertArgs}

pub record PrometheusAlertManager : Type 0 where
  pub alertmanager_url : String

pub record PrometheusAlert : Type 0 where
  pub labels : Map String
  pub annotations : Map String
  pub starts_at : Time

-- `NewPrometheusAlertManager`; `new_client` is the error of the Prometheus library's `NewClient`.
unfoldable pub new_prometheus_alert_manager :
    (String → Failure) → String → Result PrometheusAlertManager
new_prometheus_alert_manager new_client address = elim (new_client address) [
  | some e ↦ err ("failed to create Prometheus client: " ++ e)
  | none ↦ ok (record { alertmanager_url = address ++ "/api/v1/alerts" })
]

-- The loop over the devices: "device:value," for each.
unfoldable pub append_devices : String → Map String → String
append_devices device_str [] = device_str
append_devices device_str ((device, value) ∷ devices) =
    append_devices (device_str ++ concat (device ∷ ":" ∷ value ∷ "," ∷ [])) devices

-- The trailing comma is cut off, if there is any text.
abbrev pub trim_comma : String → String
trim_comma device_str =
    if ltb 0 (len device_str) then slice device_str 0 (len device_str - 1) else device_str

unfoldable pub device_text : Map String → String
device_text devices = trim_comma (append_devices "" devices)

unfoldable pub format_prometheus_alert : Time → String → ℤ → Map String → PrometheusAlert
format_prometheus_alert now pod_name power_cap_value devices = record {
  labels = ("alertname", "PowerCappingAlert") ∷ ("severity", "critical") ∷ ("pod", pod_name) ∷ [];
  annotations =
      ("summary", "Power capping alert for pod " ++ pod_name)
      ∷ (
        "description",
        concat (
            "The pod is exceeding the power cap of "
            ∷ print_int power_cap_value
            ∷ " watts. Devices: "
            ∷ device_text devices
            ∷ []),
      )
      ∷ [];
  starts_at = now;
}

abbrev pub alert_json : PrometheusAlert → Json
alert_json a = arr (
    cons
      (obj (
        field "labels" (obj (of_map a.labels)) (
          field "annotations" (obj (of_map a.annotations))
            (field "startsAt" (str a.starts_at.rfc3339_nano) end))))
      nil)

-- The end of `SendAlertToPrometheus`: the response decides.
unfoldable pub check_reply : Result Reply → Failure
check_reply (err e) = some ("failed to send request: " ++ e)
check_reply (ok reply) =
    if nat_eq reply.status_code status_ok
    then none
    else some ("failed to send alert to Prometheus Alertmanager: " ++ reply.status)

abbrev json_post : String → String → Post
json_post url body = record { url = url; content_type = "application/json"; body = body }

unfoldable pub send_alert_to_prometheus :
    Client → PrometheusAlertManager → PrometheusAlert → World → Failure × World
unfolding check_reply
send_alert_to_prometheus c p alert w = elim (c.marshal (alert_json alert)) [
  | err e ↦ (some ("failed to marshal alert: " ++ e), w)
  | ok body ↦ elim (c.new_request p.alertmanager_url) [
    | some e ↦ (some ("failed to create request: " ++ e), w)
    | none ↦ (
      check_reply (c.send (json_post p.alertmanager_url body)),
      log_post (json_post p.alertmanager_url body) w,
    )
  ]
]

abbrev wrap : Failure × World → Failure × World
wrap (none, w) = (none, w)
wrap (some e, w) = (some ("failed to send alert to Prometheus: " ++ e), w)

unfoldable pub create_alert : Client → PrometheusAlertManager → AlertArgs → World → Failure × World
unfolding send_alert_to_prometheus format_prometheus_alert
create_alert c p a w = wrap (
    send_alert_to_prometheus c p
      (format_prometheus_alert c.now a.pod_name a.power_cap_value a.devices) w)
