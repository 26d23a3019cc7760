-- ===== src/Webhook/Slack/Config/Encoded.antt =====
-- The update of an object that has the JSON form of a `PowerCappingConfig`.
use climatik_project.Prelude.{String, ◌≡◌, refl, ◌≢◌, arith, eq_iff}
use climatik_project.Api.{PowerCappingConfig, PowerCappingConfigSpec}
use climatik_project.Api.Encode.{config_fields, spec_fields, power_capping_fields}
use climatik_project.Go.Result.{ok, ret, panic}
use climatik_project.Go.Json.{null, obj, field_of, set_field}
use climatik_project.Webhook.Slack.Config.{
  KubeApi, config_namespace, config_name, as_object, set_efficiency_level, set_power_cap_percentage,
  wrap_update, update_namespace, submit, submit_spec, change, update_power_capping_config,
}

config-spec :
    (c : PowerCappingConfig) → field_of "spec" (config_fields c) ≡ obj (spec_fields c.spec)
unfolding config_fields field_of
config-spec c = refl

spec-caps :
    (s : PowerCappingConfigSpec)
    → field_of "powerCappingSpec" (spec_fields s) ≡ obj (power_capping_fields s.power_capping_spec)
unfolding spec_fields field_of
spec-caps s = ground arith

-- The struct tag is "relativePowerCapInPercentage", so the key that is looked up is missing.
caps-relative :
    (c : PowerCappingConfig)
    → field_of "relativePowerCapInPercentageSpec" (power_capping_fields c.spec.power_capping_spec)
      ≡ null
unfolding power_capping_fields field_of
caps-relative c = ground arith

set_percentage-panics :
    (c : PowerCappingConfig) (value : String)
    → set_power_cap_percentage value (spec_fields c.spec)
      ≡ panic "interface conversion: interface {} is not map[string]interface {}"
unfolding set_power_cap_percentage
set_percentage-panics c value = rw (spec-caps c.spec) (rw (caps-relative c))

-- The same configuration with another efficiency level.
abbrev pub with_level : String → PowerCappingConfig → PowerCappingConfig
with_level level c =
    let old : PowerCappingConfigSpec = c.spec in
    record c { spec = record old { efficiency_level = level } }

set_level-encodes :
    (c : PowerCappingConfig) (level : String)
    → c.spec.efficiency_level ≢ ""
    → level ≢ ""
    → set_efficiency_level level (spec_fields c.spec) ≡ ret (spec_fields (with_level level c).spec)
unfolding set_efficiency_level spec_fields set_field
set_level-encodes c level old new =
    ground (arith, eq_iff c.spec.efficiency_level "", eq_iff level "")

set_spec-encodes :
    (c : PowerCappingConfig) (level : String)
    → set_field "spec" (obj (spec_fields (with_level level c).spec)) (config_fields c)
      ≡ config_fields (with_level level c)
unfolding config_fields set_field
set_spec-encodes c level = refl

module _ (api : KubeApi) where
  -- The update of the power cap percentage panics for every configuration, whatever the value: it
  -- looks for "relativePowerCapInPercentageSpec", and the object that the custom resource's type
  -- describes has "relativePowerCapInPercentage".
  pub percentage_update-panics :
      (s : api.S) (value : String) (c : PowerCappingConfig)
      → api.get s config_namespace config_name ≡ ok (config_fields c)
      → update_power_capping_config api s "power_cap_percentage" value
        ≡ panic "interface conversion: interface {} is not map[string]interface {}"
  unfolding update_power_capping_config change submit_spec
  percentage_update-panics s value c e =
      rw e (rw (config-spec c) (unfold as_object in rw (set_percentage-panics c value)))

  -- The update of the efficiency level, for a configuration that has one and a new level that is
  -- not empty, hands the API server exactly the JSON form of the configuration with the new level,
  -- and returns what the server answers, with its prefix on an error.
  pub level_update-encodes :
      (s : api.S) (level : String) (c : PowerCappingConfig)
      → api.get s config_namespace config_name ≡ ok (config_fields c)
      → c.spec.efficiency_level ≢ ""
      → level ≢ ""
      → update_power_capping_config api s "efficiency_level" level
        ≡ ret (wrap_update (api.update s update_namespace (config_fields (with_level level c))))
  unfolding update_power_capping_config change submit_spec submit
  level_update-encodes s level c e old new = rw e (
      rw (config-spec c)
        (unfold as_object in rw (set_level-encodes c level old new, set_spec-encodes c level)))
