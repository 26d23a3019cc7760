-- ===== src/Api/Schema.antt =====
-- config/crd/bases/climatik-project.io_powercappingconfigs.yaml: the schema by which the API server
-- checks a PowerCappingConfig.
pub mod Values
pub mod Accepted
pub mod Encoded
pub mod Known
use climatik_project.Prelude.{String, Bool, true, false, ◌&&◌, ◌||◌, ◌==◌}
use climatik_project.Go.Json.{Json, null, num, str, obj, Fields, end, field, field_of}
use climatik_project.Api.Decode.{fits}

-- The types that the schema uses: texts, integers, and objects by their properties.
pub data Schema : Type 0 where
  text_type integer_type any_object : Schema
  property : String → Schema → Schema → Schema

abbrev pub is_null : Json → Bool
is_null null = true
is_null _ = false

-- The value has the type, and its integers have 64 bits. A property may be missing, for which
-- `field_of` has null.
unfoldable pub has_type : Schema → Json → Bool
has_type text_type (str s) = true
has_type text_type _ = false
has_type integer_type (num n) = fits n
has_type integer_type _ = false
has_type any_object (obj fs) = true
has_type any_object _ = false
has_type (property k s rest) (obj fs) =
    (is_null (field_of k fs) || has_type s (field_of k fs)) && has_type rest (obj fs)
has_type (property k s rest) _ = false

-- The schema names the key.
abbrev pub names : Schema → String → Bool
names (property k s rest) key = k == key || names rest key
names _ key = false

abbrev pub all_named : Schema → Fields → Bool
all_named s end = true
all_named s (field key v fs) = names s key && all_named s fs

-- An object has no key but the properties; where the schema names none, it may have any.
abbrev pub only_named : Schema → Json → Bool
only_named (property k s rest) (obj fs) = all_named (property k s rest) fs
only_named _ v = true

-- The same of the objects under the properties, at every depth.
unfoldable pub nested_named : Schema → Json → Bool
nested_named text_type v = true
nested_named integer_type v = true
nested_named any_object v = true
nested_named (property k s rest) (obj fs) =
    only_named s (field_of k fs) && nested_named s (field_of k fs) && nested_named rest (obj fs)
nested_named (property k s rest) _ = true

-- The API server prunes the keys that the schema does not name: here there are none.
unfoldable pub nothing_to_prune : Schema → Json → Bool
nothing_to_prune s v = only_named s v && nested_named s v

abbrev pub absolute_schema : Schema
absolute_schema = property "powerCapInWatts" integer_type any_object

abbrev pub relative_schema : Schema
relative_schema =
    property "powerCapPercentage" integer_type (property "sampleWindow" integer_type any_object)

abbrev pub power_capping_schema : Schema
power_capping_schema =
    property "absolutePowerCapInWatts" absolute_schema (
      property "kind" text_type
        (property "relativePowerCapInPercentage" relative_schema any_object))

abbrev pub absolute_temperature_schema : Schema
absolute_temperature_schema = property "temperatureThresholdInCelsius" integer_type any_object

abbrev pub relative_temperature_schema : Schema
relative_temperature_schema =
    property "sampleWindow" integer_type
      (property "temperatureThresholdPercentage" integer_type any_object)

abbrev pub temperature_schema : Schema
temperature_schema = property "absoluteTemperatureThresholdInCelsius" absolute_temperature_schema (
    property "kind" text_type
      (property "relativeTemperatureThresholdInPercentage" relative_temperature_schema any_object))

abbrev pub spec_schema : Schema
spec_schema = property "efficiencyLevel" text_type (
    property "powerCappingSpec" power_capping_schema (
      property "temperatureThresholdSpec" temperature_schema
        (property "workloadType" text_type any_object)))

abbrev pub status_schema : Schema
status_schema =
    property "currentPowerConsumption" integer_type
      (property "forecastPowerConsumption" integer_type any_object)

-- `openAPIV3Schema`
abbrev pub config_schema : Schema
config_schema = property "apiVersion" text_type (
    property "kind" text_type (
      property "metadata" any_object
        (property "spec" spec_schema (property "status" status_schema any_object))))
