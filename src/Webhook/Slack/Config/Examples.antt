-- ===== src/Webhook/Slack/Config/Examples.antt =====
-- The theorems on the update of a configuration at single updates.
use climatik_project.Prelude.{none, [], ◌≡◌, ◌≢◌, refl, arith, eq_iff}
use climatik_project.Go.Result.{ret, panic}
use climatik_project.Api.Encode.{config_fields}
use climatik_project.Controller.Pods.{mock_power_capping_config}
use climatik_project.Webhook.Slack.Config.{
  update_power_capping_config, wrap_update, update_namespace,
}
use climatik_project.Webhook.Slack.Config.Namespace.{update_power_capping_config-fails}
use climatik_project.Webhook.Slack.Config.Encoded.{
  with_level, percentage_update-panics, level_update-encodes,
}
use climatik_project.Webhook.Slack.Fixtures.{
  server, server-ServerLaws, low_reply, low_refused, lax_server,
}

update_power_capping_config-fails_example : low_reply.0 ≢ none
update_power_capping_config-fails_example =
    update_power_capping_config-fails server server-ServerLaws [] "efficiency_level" "Low" low_reply
      low_refused

percentage_update-panics_example :
    update_power_capping_config lax_server [] "power_cap_percentage" "70"
    ≡ panic "interface conversion: interface {} is not map[string]interface {}"
percentage_update-panics_example =
    percentage_update-panics lax_server [] "70" mock_power_capping_config refl

level_update-encodes_example :
    update_power_capping_config lax_server [] "efficiency_level" "Low"
    ≡ ret (
        wrap_update (
          lax_server.update [] update_namespace
            (config_fields (with_level "Low" mock_power_capping_config))))
level_update-encodes_example =
    level_update-encodes lax_server [] "Low" mock_power_capping_config refl
      (ground (arith, eq_iff "High" "")) (ground (arith, eq_iff "Low" ""))
