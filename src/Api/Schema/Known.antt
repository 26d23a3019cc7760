-- ===== src/Api/Schema/Known.antt =====
-- The JSON form of a configuration passes the API server unchanged.
use climatik_project.Prelude.{String, true, false, ◌==◌, ◌≡◌, refl, sym, subst, arith}
use climatik_project.Prelude.Int.{ℤ, pos, negsuc}
use climatik_project.Go.Json.{Json, obj, Fields, end, field, field_of}
use climatik_project.Api.{
  AbsolutePowerCapInWattsSpec, RelativePowerCapInPercentageSpec, PowerCappingSpec,
  AbsoluteTemperatureThresholdInCelsiusSpec, RelativeTemperatureThresholdInPercentageSpec,
  TemperatureThresholdSpec, PowerCappingConfigSpec, PowerCappingConfigStatus, PowerCappingConfig,
}
use climatik_project.Api.Encode.{
  int_field, string_field, absolute_fields, relative_fields, power_capping_fields,
  absolute_temperature_fields, relative_temperature_fields, temperature_fields, spec_fields,
  status_fields, config_fields,
}
use climatik_project.Api.Decode.{fits}
use climatik_project.Api.Decode.Single.{field_of-string_field}
use climatik_project.Api.Decode.RoundTrip.{SpecFits}
use climatik_project.Api.Schema.{
  Schema, text_type, any_object, property, names, all_named, nested_named, nothing_to_prune,
  has_type, absolute_schema, relative_schema, power_capping_schema, absolute_temperature_schema,
  relative_temperature_schema, temperature_schema, spec_schema, status_schema, config_schema,
}
use climatik_project.Go.Result.{ok}
use climatik_project.Api.Decode.{DecodeMeta, decode_config}
use climatik_project.Api.Decode.RoundTrip.{AcceptsNames, decode_config-config_fields}
use climatik_project.Api.Schema.Encoded.{config_fields-has_type}

all_named-int_field :
    (s : Schema) (k : String) (n : ℤ) (rest : Fields)
    → names s k ≡ true
    → all_named s rest ≡ true
    → all_named s (int_field k n rest) ≡ true
all_named-int_field s k (pos n) rest h r = ground arith
all_named-int_field s k (negsuc n) rest h r = ground arith

all_named-string_field :
    (s : Schema) (k t : String) (rest : Fields)
    → names s k ≡ true
    → all_named s rest ≡ true
    → all_named s (string_field k t rest) ≡ true
all_named-string_field s k t rest h r = ground arith

-- An object with named keys alone, whose properties have nothing to prune.
pruned :
    (k : String) (t rest : Schema) (fs : Fields)
    → all_named (property k t rest) fs ≡ true
    → nested_named (property k t rest) (obj fs) ≡ true
    → nothing_to_prune (property k t rest) (obj fs) ≡ true
unfolding nothing_to_prune
pruned k t rest fs h n = rw (h, n) refl

under :
    (k : String) (s rest : Schema) (fs : Fields)
    → nothing_to_prune s (field_of k fs) ≡ true
    → nested_named rest (obj fs) ≡ true
    → nested_named (property k s rest) (obj fs) ≡ true
unfolding nothing_to_prune nested_named
under k s rest fs h n = ground arith

after_string :
    (s : Schema) (k name t : String) (rest : Fields)
    → (name == k) ≡ false
    → nothing_to_prune s (field_of k rest) ≡ true
    → nothing_to_prune s (field_of k (string_field name t rest)) ≡ true
after_string s k name t rest ne h =
    subst (λ v. nothing_to_prune s v ≡ true) (sym (field_of-string_field k name t rest ne)) h

text_known : (v : Json) → nothing_to_prune text_type v ≡ true
unfolding nothing_to_prune nested_named
text_known v = refl

any_known : (fs : Fields) → nested_named any_object (obj fs) ≡ true
unfolding nested_named
any_known fs = refl

free_known : (v : Json) → nothing_to_prune any_object v ≡ true
unfolding nothing_to_prune nested_named
free_known v = refl

absolute_known :
    (a : AbsolutePowerCapInWattsSpec)
    → nothing_to_prune absolute_schema (obj (absolute_fields a)) ≡ true
unfolding absolute_fields nested_named
absolute_known a =
    pruned _ _ _ _
      (all_named-int_field absolute_schema "powerCapInWatts" a.power_cap_in_watts end refl refl)
      refl

relative_known :
    (r : RelativePowerCapInPercentageSpec)
    → nothing_to_prune relative_schema (obj (relative_fields r)) ≡ true
unfolding relative_fields nested_named
relative_known r =
    pruned _ _ _ _
      (all_named-int_field relative_schema "powerCapPercentage" r.power_cap_percentage _ refl
        (all_named-int_field relative_schema "sampleWindow" r.sample_window end refl refl))
      refl

absolute_temperature_known :
    (a : AbsoluteTemperatureThresholdInCelsiusSpec)
    → nothing_to_prune absolute_temperature_schema (obj (absolute_temperature_fields a)) ≡ true
unfolding absolute_temperature_fields nested_named
absolute_temperature_known a =
    pruned _ _ _ _
      (all_named-int_field absolute_temperature_schema "temperatureThresholdInCelsius"
        a.temperature_threshold_in_celsius end refl refl)
      refl

relative_temperature_known :
    (r : RelativeTemperatureThresholdInPercentageSpec)
    → nothing_to_prune relative_temperature_schema (obj (relative_temperature_fields r)) ≡ true
unfolding relative_temperature_fields nested_named
relative_temperature_known r =
    pruned _ _ _ _
      (all_named-int_field relative_temperature_schema "temperatureThresholdPercentage"
        r.temperature_threshold_percentage _ refl
        (all_named-int_field relative_temperature_schema "sampleWindow" r.sample_window end refl
          refl))
      refl

power_capping_known :
    (p : PowerCappingSpec)
    → nothing_to_prune power_capping_schema (obj (power_capping_fields p)) ≡ true
unfolding power_capping_fields field_of
power_capping_known p =
    let absolute_name : String = "absolutePowerCapInWatts" in
    let relative_name : String = "relativePowerCapInPercentage" in
    let rest =
      field absolute_name (obj (absolute_fields p.absolute))
        (field relative_name (obj (relative_fields p.relative)) end) in
    pruned _ _ _ _ (all_named-string_field power_capping_schema "kind" p.kind rest refl refl) (
      under absolute_name absolute_schema _ (power_capping_fields p)
        (after_string absolute_schema absolute_name "kind" p.kind rest refl
          (absolute_known p.absolute))
        (under "kind" text_type _ (power_capping_fields p) (text_known _) (
          under relative_name relative_schema any_object (power_capping_fields p)
            (after_string relative_schema relative_name "kind" p.kind rest refl
              (relative_known p.relative))
            (any_known _))))

temperature_known :
    (t : TemperatureThresholdSpec)
    → nothing_to_prune temperature_schema (obj (temperature_fields t)) ≡ true
unfolding temperature_fields field_of
temperature_known t =
    let absolute_name : String = "absoluteTemperatureThresholdInCelsius" in
    let relative_name : String = "relativeTemperatureThresholdInPercentage" in
    let rest =
      field absolute_name (obj (absolute_temperature_fields t.absolute))
        (field relative_name (obj (relative_temperature_fields t.relative)) end) in
    pruned _ _ _ _ (all_named-string_field temperature_schema "kind" t.kind rest refl refl) (
      under absolute_name absolute_temperature_schema _ (temperature_fields t)
        (after_string absolute_temperature_schema absolute_name "kind" t.kind rest refl
          (absolute_temperature_known t.absolute))
        (under "kind" text_type _ (temperature_fields t) (text_known _) (
          under relative_name relative_temperature_schema any_object (temperature_fields t)
            (after_string relative_temperature_schema relative_name "kind" t.kind rest refl
              (relative_temperature_known t.relative))
            (any_known _))))

spec_known :
    (s : PowerCappingConfigSpec) → nothing_to_prune spec_schema (obj (spec_fields s)) ≡ true
unfolding spec_fields field_of
spec_known s =
    let capping : String = "powerCappingSpec" in
    let threshold : String = "temperatureThresholdSpec" in
    let rest =
      field capping (obj (power_capping_fields s.power_capping_spec))
        (field threshold (obj (temperature_fields s.temperature_threshold_spec)) end) in
    let levels = string_field "efficiencyLevel" s.efficiency_level rest in
    pruned _ _ _ _
      (all_named-string_field spec_schema "workloadType" s.workload_type levels refl
        (all_named-string_field spec_schema "efficiencyLevel" s.efficiency_level rest refl refl))
      (under "efficiencyLevel" text_type _ (spec_fields s) (text_known _) (
        under capping power_capping_schema _ (spec_fields s)
          (after_string power_capping_schema capping "workloadType" s.workload_type levels refl (
            after_string power_capping_schema capping "efficiencyLevel" s.efficiency_level rest refl
              (power_capping_known s.power_capping_spec)))
          (under threshold temperature_schema _ (spec_fields s)
            (after_string temperature_schema threshold "workloadType" s.workload_type levels refl (
              after_string temperature_schema threshold "efficiencyLevel" s.efficiency_level rest
                refl (temperature_known s.temperature_threshold_spec)))
            (under "workloadType" text_type any_object (spec_fields s) (text_known _)
              (any_known _)))))

status_known :
    (s : PowerCappingConfigStatus) → nothing_to_prune status_schema (obj (status_fields s)) ≡ true
unfolding status_fields nested_named
status_known s =
    pruned _ _ _ _
      (all_named-int_field status_schema "currentPowerConsumption" s.current_power_consumption _
        refl
        (all_named-int_field status_schema "forecastPowerConsumption" s.forecast_power_consumption
          end refl refl))
      refl

config_known :
    (c : PowerCappingConfig) → nothing_to_prune config_schema (obj (config_fields c)) ≡ true
unfolding config_fields field_of
config_known c = pruned _ _ _ (config_fields c) refl (
    under "apiVersion" text_type _ (config_fields c) (text_known _) (
      under "kind" text_type _ (config_fields c) (text_known _) (
        under "metadata" any_object _ (config_fields c) (free_known _) (
          under "spec" spec_schema _ (config_fields c) (spec_known c.spec) (
            under "status" status_schema any_object (config_fields c) (status_known c.status)
              (any_known _))))))

-- The object has the type of the schema and nothing that the schema would prune, and is read as
-- the configuration.
abbrev pub Stands : DecodeMeta → Fields → PowerCappingConfig → Type 0
Stands decode_meta fs c =
    (has_type config_schema (obj fs) ≡ true)
    × (nothing_to_prune config_schema (obj fs) ≡ true)
    × (decode_config decode_meta fs ≡ ok c)

-- The JSON form of every configuration whose numbers have 64 bits has the type that the schema of
-- the custom resource gives it, has at no depth a key that the schema would prune, and is read back
-- as the configuration that it was, with a decoding of the embedded types that accepts texts for
-- the version, the kind, the name and the namespace.
pub config_fields-Stands :
    (decode_meta : DecodeMeta) (accepts : AcceptsNames decode_meta) (c : PowerCappingConfig)
    → SpecFits c.spec
    → fits c.status.current_power_consumption ≡ true
    → fits c.status.forecast_power_consumption ≡ true
    → Stands decode_meta (config_fields c) c
config_fields-Stands decode_meta accepts c h k l = (
  config_fields-has_type c h k l,
  config_known c,
  decode_config-config_fields decode_meta accepts c h k l,
)
