-- ===== src/Api/Encode.antt =====
-- The JSON form of a configuration, by the struct tags of
-- api/v1alpha1/powercappingconfig_types.go: `omitempty` leaves a zero number and an empty string
-- out, and never a struct.
use climatik_project.Prelude.{String, nat_eq, ◌==◌, if◌then◌else◌}
use climatik_project.Prelude.Int.{ℤ, pos, negsuc}
use climatik_project.Go.Json.{num, str, obj, Fields, end, field}
use climatik_project.Api.{
  AbsolutePowerCapInWattsSpec, RelativePowerCapInPercentageSpec, PowerCappingSpec,
  AbsoluteTemperatureThresholdInCelsiusSpec, RelativeTemperatureThresholdInPercentageSpec,
  TemperatureThresholdSpec, PowerCappingConfigSpec, PowerCappingConfigStatus, PowerCappingConfig,
  group_version, api_version,
}

-- `json:"name,omitempty"` on an int.
abbrev pub int_field : String → ℤ → Fields → Fields
int_field name (pos n) rest = if nat_eq n 0 then rest else field name (num (pos n)) rest
int_field name (negsuc n) rest = field name (num (negsuc n)) rest

-- `json:"name,omitempty"` on a string.
abbrev pub string_field : String → String → Fields → Fields
string_field name s rest = if s == "" then rest else field name (str s) rest

unfoldable pub absolute_fields : AbsolutePowerCapInWattsSpec → Fields
absolute_fields a = int_field "powerCapInWatts" a.power_cap_in_watts end

unfoldable pub relative_fields : RelativePowerCapInPercentageSpec → Fields
relative_fields r =
    int_field "powerCapPercentage" r.power_cap_percentage
      (int_field "sampleWindow" r.sample_window end)

unfoldable pub power_capping_fields : PowerCappingSpec → Fields
power_capping_fields p = string_field "kind" p.kind (
    field "absolutePowerCapInWatts" (obj (absolute_fields p.absolute))
      (field "relativePowerCapInPercentage" (obj (relative_fields p.relative)) end))

unfoldable pub absolute_temperature_fields : AbsoluteTemperatureThresholdInCelsiusSpec → Fields
absolute_temperature_fields a =
    int_field "temperatureThresholdInCelsius" a.temperature_threshold_in_celsius end

unfoldable pub relative_temperature_fields : RelativeTemperatureThresholdInPercentageSpec → Fields
relative_temperature_fields r =
    int_field "temperatureThresholdPercentage" r.temperature_threshold_percentage
      (int_field "sampleWindow" r.sample_window end)

unfoldable pub temperature_fields : TemperatureThresholdSpec → Fields
temperature_fields t = string_field "kind" t.kind (
    field "absoluteTemperatureThresholdInCelsius" (obj (absolute_temperature_fields t.absolute)) (
      field "relativeTemperatureThresholdInPercentage"
        (obj (relative_temperature_fields t.relative)) end))

unfoldable pub spec_fields : PowerCappingConfigSpec → Fields
spec_fields s = string_field "workloadType" s.workload_type (
    string_field "efficiencyLevel" s.efficiency_level (
      field "powerCappingSpec" (obj (power_capping_fields s.power_capping_spec)) (
        field "temperatureThresholdSpec" (obj (temperature_fields s.temperature_threshold_spec))
          end)))

unfoldable pub status_fields : PowerCappingConfigStatus → Fields
status_fields s =
    int_field "currentPowerConsumption" s.current_power_consumption
      (int_field "forecastPowerConsumption" s.forecast_power_consumption end)

-- The object that the API server hands out, with the type that the scheme registers.
unfoldable pub config_fields : PowerCappingConfig → Fields
config_fields c = field "apiVersion" (str (api_version group_version)) (
    field "kind" (str "PowerCappingConfig") (
      field "metadata" (obj (string_field "name" c.name (string_field "namespace" c.namespace end)))
        (field "spec" (obj (spec_fields c.spec))
          (field "status" (obj (status_fields c.status)) end))))
