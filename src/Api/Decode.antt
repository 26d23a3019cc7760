-- ===== src/Api/Decode.antt =====
-- The types of api/v1alpha1/powercappingconfig_types.go read from JSON by their struct tags, as
-- `encoding/json` documents it: a missing key and null leave the zero value, a key that no tag
-- names is skipped, a value of another type is an error, and so is a number beyond 64 bits.
pub mod Single
pub mod RoundTrip
use climatik_project.Prelude.{none, some, ◌^◌, String, Bool, true, ◌≡◌, if◌then◌else◌, ltb}
use climatik_project.Prelude.Int.{ℤ, pos, negsuc}
use climatik_project.Go.Result.{Result, ok, err, Failure}
use climatik_project.Go.Json.{Json, null, num, str, obj, Fields, end, field_of}
use climatik_project.Api.{
  AbsolutePowerCapInWattsSpec, RelativePowerCapInPercentageSpec, PowerCappingSpec,
  AbsoluteTemperatureThresholdInCelsiusSpec, RelativeTemperatureThresholdInPercentageSpec,
  TemperatureThresholdSpec, PowerCappingConfigSpec, PowerCappingConfigStatus, PowerCappingConfig,
}

-- Go's `int` has 64 bits.
abbrev pub fits : ℤ → Bool
fits (pos n) = ltb n (2 ^ 63)
fits (negsuc n) = ltb n (2 ^ 63)

unfoldable pub int_of : Json → Result ℤ
int_of null = ok (pos 0)
int_of (num n) = if fits n then ok n else err "cannot unmarshal number into Go value of type int"
int_of _ = err "cannot unmarshal into Go value of type int"

unfoldable pub string_of : Json → Result String
string_of null = ok ""
string_of (str s) = ok s
string_of _ = err "cannot unmarshal into Go value of type string"

unfoldable pub fields_of : Json → Result Fields
fields_of null = ok end
fields_of (obj fs) = ok fs
fields_of _ = err "cannot unmarshal into Go struct"

infixl 5 ◌>>=◌
abbrev pub ◌>>=◌ : {A B : Type 0} → Result A → (A → Result B) → Result B
ok a >>= f = f a
err e >>= f = err e

unfoldable pub decode_absolute : Fields → Result AbsolutePowerCapInWattsSpec
decode_absolute fs = do
  n ← int_of (field_of "powerCapInWatts" fs)
  ok (record { power_cap_in_watts = n })

unfoldable pub decode_relative : Fields → Result RelativePowerCapInPercentageSpec
decode_relative fs = do
  n ← int_of (field_of "powerCapPercentage" fs)
  k ← int_of (field_of "sampleWindow" fs)
  ok (record { power_cap_percentage = n; sample_window = k })

unfoldable pub decode_power_capping : Fields → Result PowerCappingSpec
decode_power_capping fs = do
  kind ← string_of (field_of "kind" fs)
  abs ← fields_of (field_of "absolutePowerCapInWatts" fs)
  a ← decode_absolute abs
  rs ← fields_of (field_of "relativePowerCapInPercentage" fs)
  r ← decode_relative rs
  ok (record { kind = kind; absolute = a; relative = r })

unfoldable pub decode_absolute_temperature :
    Fields → Result AbsoluteTemperatureThresholdInCelsiusSpec
decode_absolute_temperature fs = do
  n ← int_of (field_of "temperatureThresholdInCelsius" fs)
  ok (record { temperature_threshold_in_celsius = n })

unfoldable pub decode_relative_temperature :
    Fields → Result RelativeTemperatureThresholdInPercentageSpec
decode_relative_temperature fs = do
  n ← int_of (field_of "temperatureThresholdPercentage" fs)
  k ← int_of (field_of "sampleWindow" fs)
  ok (record { temperature_threshold_percentage = n; sample_window = k })

unfoldable pub decode_temperature : Fields → Result TemperatureThresholdSpec
decode_temperature fs = do
  kind ← string_of (field_of "kind" fs)
  abs ← fields_of (field_of "absoluteTemperatureThresholdInCelsius" fs)
  a ← decode_absolute_temperature abs
  rs ← fields_of (field_of "relativeTemperatureThresholdInPercentage" fs)
  r ← decode_relative_temperature rs
  ok (record { kind = kind; absolute = a; relative = r })

unfoldable pub decode_spec : Fields → Result PowerCappingConfigSpec
decode_spec fs = do
  workload_type ← string_of (field_of "workloadType" fs)
  efficiency_level ← string_of (field_of "efficiencyLevel" fs)
  ps ← fields_of (field_of "powerCappingSpec" fs)
  p ← decode_power_capping ps
  ts ← fields_of (field_of "temperatureThresholdSpec" fs)
  t ← decode_temperature ts
  ok (record {
    workload_type = workload_type;
    efficiency_level = efficiency_level;
    power_capping_spec = p;
    temperature_threshold_spec = t;
  })

unfoldable pub decode_status : Fields → Result PowerCappingConfigStatus
decode_status fs = do
  n ← int_of (field_of "currentPowerConsumption" fs)
  k ← int_of (field_of "forecastPowerConsumption" fs)
  ok (record { current_power_consumption = n; forecast_power_consumption = k })

-- The decoding of what a configuration embeds of apimachinery, TypeMeta and ObjectMeta, by the
-- fields of the object: its error. ObjectMeta's name and namespace are read here as well.
abbrev pub DecodeMeta : Type 0
DecodeMeta = Fields → Failure

abbrev unless : {A : Type 0} → Failure → Result A → Result A
unless none r = r
unless (some e) r = err e

unfoldable pub decode_config : DecodeMeta → Fields → Result PowerCappingConfig
decode_config decode_meta fs = unless (decode_meta fs) do
  ms ← fields_of (field_of "metadata" fs)
  name ← string_of (field_of "name" ms)
  namespace ← string_of (field_of "namespace" ms)
  ss ← fields_of (field_of "spec" fs)
  spec ← decode_spec ss
  us ← fields_of (field_of "status" fs)
  status ← decode_status us
  ok (record { name = name; namespace = namespace; spec = spec; status = status })
