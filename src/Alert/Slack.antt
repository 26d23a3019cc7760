-- ===== src/Alert/Slack.antt =====
-- internal/alert/adapters/slack.go
use Prim.Native.String.{◌++◌}
use climatik_project.Prelude.{String, true, none, some, [], ◌∷◌, nat_eq, ◌==◌, if◌then◌else◌}
use climatik_project.Prelude.Int.{ℤ}
use climatik_project.Api.{PowerCappingConfig, relative_of_peak}
use climatik_project.Go.Result.{Result, ok, err, Failure}
use climatik_project.Go.Text.{concat, print_int}
use climatik_project.Go.Map.{Map, print_map}
use climatik_project.Go.Json.{Json, bool, str, arr, obj, Items, nil, cons, end, field}
use climatik_project.Go.Http.{Post, status_ok}
use climatik_project.Go.Client.{Client, Time, Reply}
use climatik_project.Go.Float.{Float}
use climatik_project.Alert.World.{World, log_post, AlertArgs}

abbrev pub AlertLevel : Type 0
AlertLevel = String

abbrev pub alert_level_info : AlertLevel
alert_level_info = "INFO"

abbrev pub alert_level_warning : AlertLevel
alert_level_warning = "WARNING"

abbrev pub alert_level_critical : AlertLevel
alert_level_critical = "CRITICAL"

pub record SlackAlertManager : Type 0 where
  pub webhook_url : String

-- `NewSlackAlertManager`
abbrev pub new_slack_alert_manager : String → Result SlackAlertManager
new_slack_alert_manager webhook_url = ok (record { webhook_url = webhook_url })

-- `getColorForAlertLevel`
unfoldable pub get_color_for_alert_level : AlertLevel → String
get_color_for_alert_level level =
    if level == alert_level_info
    then "#36a64f"
    else if level == alert_level_warning
    then "#ffcc00"
    else if level == alert_level_critical
    then "#ff0000"
    else "#808080"

abbrev short_field : String → String → Json
short_field title value =
    obj (field "title" (str title) (field "value" (str value) (field "short" (bool true) end)))

-- `getFieldsForDevices`
unfoldable pub get_fields_for_devices : Map String → Items
get_fields_for_devices [] = nil
get_fields_for_devices ((device, value) ∷ devices) =
    cons (short_field device value) (get_fields_for_devices devices)

-- The lines that are added for a cap relative to the peak.
unfoldable pub relative_details : PowerCappingConfig → String
relative_details config =
    if config.spec.power_capping_spec.kind == relative_of_peak
    then concat (
        "Power Cap Percentage: "
        ∷ print_int config.spec.power_capping_spec.relative.power_cap_percentage
        ∷ "%\n"
        ∷ "Sample Window: "
        ∷ print_int config.spec.power_capping_spec.relative.sample_window
        ∷ " seconds\n"
        ∷ [])
    else ""

abbrev check_reply : Result Reply → Failure
check_reply (err e) = some ("failed to send Slack alert: " ++ e)
check_reply (ok reply) =
    if nat_eq reply.status_code status_ok
    then none
    else some ("slack API returned non-OK status: " ++ reply.status)

module _ (f : Float) where
  pub record SlackAlert : Type 0 where
    pub pod_name : String
    pub power_cap_value : ℤ
    pub current_power : f.F
    pub devices : Map String
    pub level : AlertLevel
    pub timestamp : Time
    pub config : PowerCappingConfig
    pub message : String

  unfoldable pub alert_message : AlertArgs → String
  unfolding relative_details
  alert_message a = concat (
      "*Power Capping Alert for pod "
      ∷ a.pod_name
      ∷ "*\n"
      ∷ "Current power: "
      ∷ f.fixed2 (f.of_int a.power_cap_value)
      ∷ " watts\n"
      ∷ "Power cap: "
      ∷ print_int a.power_cap_value
      ∷ " watts\n"
      ∷ "Devices: "
      ∷ print_map a.devices
      ∷ "\n"
      ∷ "\n*Configuration Details:*\n"
      ∷ "Workload Type: "
      ∷ a.config.spec.workload_type
      ∷ "\n"
      ∷ "Efficiency Level: "
      ∷ a.config.spec.efficiency_level
      ∷ "\n"
      ∷ "Power Cap Kind: "
      ∷ a.config.spec.power_capping_spec.kind
      ∷ "\n"
      ∷ relative_details a.config
      ∷ "\n*Actions:*\n"
      ∷ "To modify the power capping configuration, click here: <your_app_url>/modify-config"
      ∷ [])

  -- The payload of `sendWebhookAlert`.
  unfoldable pub webhook_payload : SlackAlert → Json
  unfolding get_color_for_alert_level
  webhook_payload alert = obj (
      field "text" (str alert.message) (
        field "attachments"
          (arr (
            cons
              (obj (
                field "color" (str (get_color_for_alert_level alert.level)) (
                  field "fields"
                    (arr (
                      cons (short_field "Pod" alert.pod_name) (
                        cons (short_field "Power Cap" (print_int alert.power_cap_value ++ " W")) (
                          cons (short_field "Current Power" (f.fixed2 alert.current_power ++ " W"))
                            (cons (short_field "Timestamp" alert.timestamp.rfc3339) nil)))))
                    end)))
              nil))
          end))

  unfoldable pub send_webhook_alert :
      Client → SlackAlertManager → SlackAlert → World → Failure × World
  send_webhook_alert c s alert w = elim (c.marshal (webhook_payload alert)) [
    | err e ↦ (some ("failed to marshal JSON payload: " ++ e), w)
    | ok body ↦
        let post : Post = record {
          url = s.webhook_url;
          content_type = "application/json";
          body = body;
        } in
        (check_reply (c.send post), log_post post w)
  ]

  -- The alert that `CreateAlert` builds.
  unfoldable pub new_slack_alert : Time → AlertArgs → SlackAlert
  new_slack_alert now a = record {
    pod_name = a.pod_name;
    power_cap_value = a.power_cap_value;
    current_power = f.of_int a.power_cap_value;
    devices = a.devices;
    level = alert_level_warning;
    timestamp = now;
    config = a.config;
    message = alert_message a;
  }

  unfoldable pub create_alert : Client → SlackAlertManager → AlertArgs → World → Failure × World
  unfolding send_webhook_alert new_slack_alert
  create_alert c s a w = send_webhook_alert c s (new_slack_alert c.now a) w
