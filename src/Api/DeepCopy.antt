-- ===== src/Api/DeepCopy.antt =====
-- api/v1alpha1/zz_generated.deepcopy.go, for the types that hold no pointer: each `DeepCopyInto`
-- assigns the struct, and each `DeepCopy` does so for a new one.
pub mod Structs
pub mod Objects
pub mod Contents
pub mod Lists
pub mod ListObjects
pub mod Labels
pub mod Configs
use climatik_project.Prelude.{ℕ, String, Option, none, some}
use climatik_project.Prelude.Int.{ℤ, pos}
use climatik_project.Go.Result.{Call, ret, panic, ◌>>=◌}
use climatik_project.Go.Store.{Store, load, write, allocate}
use climatik_project.Api.{
  AbsolutePowerCapInWattsSpec, RelativePowerCapInPercentageSpec, PowerCappingSpec,
  AbsoluteTemperatureThresholdInCelsiusSpec, RelativeTemperatureThresholdInPercentageSpec,
  TemperatureThresholdSpec, PowerCappingConfigSpec, PowerCappingConfigStatus,
}

-- `*out = *in`, and the assignments of fields that follow; `in` must not be nil.
abbrev pub CopyInto : Type 0 → Type 0
CopyInto A = ℕ → ℕ → Store A → Call (Store A)

abbrev pub Copy : Type 0 → Type 0
Copy A = Option ℕ → Store A → Call (Option ℕ × Store A)

abbrev assign : {A : Type 0} → (A → A) → CopyInto A
assign fields from to s = do value ← load s from; ret (write to (fields value) s)

-- `DeepCopy`: nil for nil, and otherwise a new variable with the zero value, which is filled.
abbrev copy_of : {A : Type 0} → A → CopyInto A → Copy A
copy_of zero_value into none s = ret (none, s)
copy_of zero_value into (some p) s = do
  filled ← into p s.next (allocate zero_value s)
  ret (some s.next, filled)

abbrev pub zero_absolute : AbsolutePowerCapInWattsSpec
zero_absolute = record { power_cap_in_watts = pos 0 }

abbrev pub zero_relative : RelativePowerCapInPercentageSpec
zero_relative = record { power_cap_percentage = pos 0; sample_window = pos 0 }

abbrev pub zero_power_capping : PowerCappingSpec
zero_power_capping = record { kind = ""; absolute = zero_absolute; relative = zero_relative }

abbrev pub zero_absolute_temperature : AbsoluteTemperatureThresholdInCelsiusSpec
zero_absolute_temperature = record { temperature_threshold_in_celsius = pos 0 }

abbrev pub zero_relative_temperature : RelativeTemperatureThresholdInPercentageSpec
zero_relative_temperature = record {
  temperature_threshold_percentage = pos 0;
  sample_window = pos 0;
}

abbrev pub zero_temperature : TemperatureThresholdSpec
zero_temperature = record {
  kind = "";
  absolute = zero_absolute_temperature;
  relative = zero_relative_temperature;
}

abbrev pub zero_spec : PowerCappingConfigSpec
zero_spec = record {
  workload_type = "";
  efficiency_level = "";
  power_capping_spec = zero_power_capping;
  temperature_threshold_spec = zero_temperature;
}

abbrev pub zero_status : PowerCappingConfigStatus
zero_status = record { current_power_consumption = pos 0; forecast_power_consumption = pos 0 }

unfoldable pub absolute_copy_into : CopyInto AbsolutePowerCapInWattsSpec
absolute_copy_into = assign (λ value. value)

unfoldable pub absolute_copy : Copy AbsolutePowerCapInWattsSpec
unfolding absolute_copy_into
absolute_copy = copy_of zero_absolute absolute_copy_into

unfoldable pub absolute_temperature_copy_into : CopyInto AbsoluteTemperatureThresholdInCelsiusSpec
absolute_temperature_copy_into = assign (λ value. value)

unfoldable pub absolute_temperature_copy : Copy AbsoluteTemperatureThresholdInCelsiusSpec
unfolding absolute_temperature_copy_into
absolute_temperature_copy = copy_of zero_absolute_temperature absolute_temperature_copy_into

unfoldable pub spec_copy_into : CopyInto PowerCappingConfigSpec
spec_copy_into = assign λ value. record value {
  power_capping_spec = value.power_capping_spec;
  temperature_threshold_spec = value.temperature_threshold_spec;
}

unfoldable pub spec_copy : Copy PowerCappingConfigSpec
unfolding spec_copy_into
spec_copy = copy_of zero_spec spec_copy_into

unfoldable pub status_copy_into : CopyInto PowerCappingConfigStatus
status_copy_into = assign (λ value. value)

unfoldable pub status_copy : Copy PowerCappingConfigStatus
unfolding status_copy_into
status_copy = copy_of zero_status status_copy_into

unfoldable pub power_capping_copy_into : CopyInto PowerCappingSpec
power_capping_copy_into =
    assign λ value. record value { absolute = value.absolute; relative = value.relative }

unfoldable pub power_capping_copy : Copy PowerCappingSpec
unfolding power_capping_copy_into
power_capping_copy = copy_of zero_power_capping power_capping_copy_into

unfoldable pub relative_copy_into : CopyInto RelativePowerCapInPercentageSpec
relative_copy_into = assign (λ value. value)

unfoldable pub relative_copy : Copy RelativePowerCapInPercentageSpec
unfolding relative_copy_into
relative_copy = copy_of zero_relative relative_copy_into

unfoldable pub relative_temperature_copy_into :
    CopyInto RelativeTemperatureThresholdInPercentageSpec
relative_temperature_copy_into = assign (λ value. value)

unfoldable pub relative_temperature_copy : Copy RelativeTemperatureThresholdInPercentageSpec
unfolding relative_temperature_copy_into
relative_temperature_copy = copy_of zero_relative_temperature relative_temperature_copy_into

unfoldable pub temperature_copy_into : CopyInto TemperatureThresholdSpec
temperature_copy_into =
    assign λ value. record value { absolute = value.absolute; relative = value.relative }

unfoldable pub temperature_copy : Copy TemperatureThresholdSpec
unfolding temperature_copy_into
temperature_copy = copy_of zero_temperature temperature_copy_into
