-- ===== src/Api.antt =====
-- api/v1alpha1/powercappingconfig_types.go: the types of the custom resource. Of the Kubernetes
-- metadata the name and the namespace are kept, which is what the program reads.
pub mod Encode
pub mod Decode
pub mod Schema
pub mod DeepCopy
mod Examples
use Prim.Native.String.{◌++◌}
use climatik_project.Prelude.{String, List, [], ◌∷◌}
use climatik_project.Prelude.Int.{ℤ}
use climatik_project.Go.Text.{join, print_int}

abbrev pub PowerCappingSpecKind : Type 0
PowerCappingSpecKind = String

abbrev pub no_power_capping_spec : PowerCappingSpecKind
no_power_capping_spec = "NoPowerCappingSpec"

abbrev pub absolute_power_cap_in_watts : PowerCappingSpecKind
absolute_power_cap_in_watts = "AbsolutePowerCapInWatts"

abbrev pub relative_of_peak : PowerCappingSpecKind
relative_of_peak = "RelativePowerCapOfPeakPowerConsumptionInPercentage"

abbrev pub relative_of_average : PowerCappingSpecKind
relative_of_average = "RelativePowerCappingOfAveragePowerConsumptionInPercentage"

pub record AbsolutePowerCapInWattsSpec : Type 0 where
  pub power_cap_in_watts : ℤ

pub record RelativePowerCapInPercentageSpec : Type 0 where
  pub power_cap_percentage : ℤ
  pub sample_window : ℤ

pub record PowerCappingSpec : Type 0 where
  pub kind : PowerCappingSpecKind
  pub absolute : AbsolutePowerCapInWattsSpec
  pub relative : RelativePowerCapInPercentageSpec

abbrev pub TemperatureThresholdKind : Type 0
TemperatureThresholdKind = String

abbrev pub no_temperature_threshold : TemperatureThresholdKind
no_temperature_threshold = "NoTemperatureThreshold"

abbrev pub absolute_temperature_threshold : TemperatureThresholdKind
absolute_temperature_threshold = "AbsoluteTemperatureThresholdInCelsius"

abbrev pub temperature_of_peak : TemperatureThresholdKind
temperature_of_peak = "RelativeTemperatureThresholdOfPeakTemperatureInPercentage"

abbrev pub temperature_of_average : TemperatureThresholdKind
temperature_of_average = "RelativeTemperatureThresholdOfAverageTemperatureInPercentage"

pub record AbsoluteTemperatureThresholdInCelsiusSpec : Type 0 where
  pub temperature_threshold_in_celsius : ℤ

pub record RelativeTemperatureThresholdInPercentageSpec : Type 0 where
  pub temperature_threshold_percentage : ℤ
  pub sample_window : ℤ

pub record TemperatureThresholdSpec : Type 0 where
  pub kind : TemperatureThresholdKind
  pub absolute : AbsoluteTemperatureThresholdInCelsiusSpec
  pub relative : RelativeTemperatureThresholdInPercentageSpec

pub record PowerCappingConfigSpec : Type 0 where
  pub workload_type : String
  pub efficiency_level : String
  pub power_capping_spec : PowerCappingSpec
  pub temperature_threshold_spec : TemperatureThresholdSpec

pub record PowerCappingConfigStatus : Type 0 where
  pub current_power_consumption : ℤ
  pub forecast_power_consumption : ℤ

pub record PowerCappingConfig : Type 0 where
  pub name : String
  pub namespace : String
  pub spec : PowerCappingConfigSpec
  pub status : PowerCappingConfigStatus

-- `schema.GroupVersion`
pub record GroupVersion : Type 0 where
  pub group : String
  pub version : String

abbrev pub group_version : GroupVersion
group_version = record { group = "climatik-project.io"; version = "v1alpha1" }

-- The field `apiVersion` of an object of the group.
abbrev pub api_version : GroupVersion → String
api_version g = g.group ++ "/" ++ g.version

-- A struct as `%v` prints it.
abbrev struct_text : List String → String
struct_text fields = "{" ++ join " " fields ++ "}"

unfoldable pub error : PowerCappingConfig → String
error p =
    "Error in PowerCappingConfig: "
    ++ struct_text (
        p.spec.workload_type
        ∷ p.spec.efficiency_level
        ∷ struct_text (
            p.spec.power_capping_spec.kind
            ∷ struct_text (print_int p.spec.power_capping_spec.absolute.power_cap_in_watts ∷ [])
            ∷ struct_text (
                print_int p.spec.power_capping_spec.relative.power_cap_percentage
                ∷ print_int p.spec.power_capping_spec.relative.sample_window
                ∷ [])
            ∷ [])
        ∷ struct_text (
            p.spec.temperature_threshold_spec.kind
            ∷ struct_text (
                print_int
                  p.spec.temperature_threshold_spec.absolute.temperature_threshold_in_celsius
                ∷ [])
            ∷ struct_text (
                print_int
                  p.spec.temperature_threshold_spec.relative.temperature_threshold_percentage
                ∷ print_int p.spec.temperature_threshold_spec.relative.sample_window
                ∷ [])
            ∷ [])
        ∷ [])
    ++ " "
    ++ struct_text (
        print_int p.status.current_power_consumption
        ∷ print_int p.status.forecast_power_consumption
        ∷ [])
