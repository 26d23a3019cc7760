-- ===== src/Api/Decode/RoundTrip.antt =====
-- A configuration written as JSON and read back.
use climatik_project.Prelude.{String, none, true, false, ◌≡◌, refl, ◌==◌}
use climatik_project.Prelude.Int.{ℤ}
use climatik_project.Go.Result.{ok}
use climatik_project.Go.Json.{Fields, str, obj, end, field, field_of}
use climatik_project.Api.{
  AbsolutePowerCapInWattsSpec, RelativePowerCapInPercentageSpec, PowerCappingSpec,
  AbsoluteTemperatureThresholdInCelsiusSpec, RelativeTemperatureThresholdInPercentageSpec,
  TemperatureThresholdSpec, PowerCappingConfigSpec, PowerCappingConfigStatus, PowerCappingConfig,
  group_version, api_version,
}
use climatik_project.Api.Encode.{
  int_field, string_field, absolute_fields, relative_fields, power_capping_fields,
  absolute_temperature_fields, relative_temperature_fields, temperature_fields, spec_fields,
  status_fields, config_fields,
}
use climatik_project.Api.Decode.{
  fits, int_of, fields_of, decode_absolute, decode_relative, decode_power_capping,
  decode_absolute_temperature, decode_relative_temperature, decode_temperature, decode_spec,
  decode_status, DecodeMeta, decode_config,
}
use climatik_project.Api.Decode.Single.{
  field_of-int_field, field_of-string_field, int_of-int_field, string_of-string_field,
}

-- Two numbers under different names.
pair_read :
    (a b : String) (n k : ℤ)
    → (a == b) ≡ false
    → (b == a) ≡ false
    → fits n ≡ true
    → fits k ≡ true
    → (int_of (field_of a (int_field a n (int_field b k end))) ≡ ok n)
      × (int_of (field_of b (int_field a n (int_field b k end))) ≡ ok k)
unfolding field_of
pair_read a b n k ne en fn fk = (
  int_of-int_field a n (int_field b k end) (rw (field_of-int_field a b k end en) refl) fn,
  rw (field_of-int_field b a n (int_field b k end) ne) (int_of-int_field b k end refl fk),
)

absolute-read :
    (a : AbsolutePowerCapInWattsSpec)
    → fits a.power_cap_in_watts ≡ true
    → decode_absolute (absolute_fields a) ≡ ok a
unfolding decode_absolute absolute_fields field_of
absolute-read a h = rw (int_of-int_field "powerCapInWatts" a.power_cap_in_watts end refl h)

relative-read :
    (r : RelativePowerCapInPercentageSpec)
    → fits r.power_cap_percentage ≡ true
    → fits r.sample_window ≡ true
    → decode_relative (relative_fields r) ≡ ok r
unfolding decode_relative relative_fields
relative-read r h k =
    let (first, second) =
      pair_read "powerCapPercentage" "sampleWindow" r.power_cap_percentage r.sample_window refl refl
        h k in
    rw (first, second)

power_capping-read :
    (p : PowerCappingSpec)
    → fits p.absolute.power_cap_in_watts ≡ true
    → fits p.relative.power_cap_percentage ≡ true
    → fits p.relative.sample_window ≡ true
    → decode_power_capping (power_capping_fields p) ≡ ok p
unfolding decode_power_capping power_capping_fields field_of fields_of
power_capping-read p h k l =
    let rest =
      field "absolutePowerCapInWatts" (obj (absolute_fields p.absolute))
        (field "relativePowerCapInPercentage" (obj (relative_fields p.relative)) end) in
    rw (
      string_of-string_field "kind" p.kind rest refl,
      field_of-string_field "absolutePowerCapInWatts" "kind" p.kind rest refl,
      field_of-string_field "relativePowerCapInPercentage" "kind" p.kind rest refl,
      absolute-read p.absolute h,
      relative-read p.relative k l,
    )

absolute_temperature-read :
    (a : AbsoluteTemperatureThresholdInCelsiusSpec)
    → fits a.temperature_threshold_in_celsius ≡ true
    → decode_absolute_temperature (absolute_temperature_fields a) ≡ ok a
unfolding decode_absolute_temperature absolute_temperature_fields field_of
absolute_temperature-read a h =
    rw (
      int_of-int_field "temperatureThresholdInCelsius" a.temperature_threshold_in_celsius end refl
        h)

relative_temperature-read :
    (r : RelativeTemperatureThresholdInPercentageSpec)
    → fits r.temperature_threshold_percentage ≡ true
    → fits r.sample_window ≡ true
    → decode_relative_temperature (relative_temperature_fields r) ≡ ok r
unfolding decode_relative_temperature relative_temperature_fields
relative_temperature-read r h k =
    let (first, second) =
      pair_read "temperatureThresholdPercentage" "sampleWindow" r.temperature_threshold_percentage
        r.sample_window refl refl h k in
    rw (first, second)

temperature-read :
    (t : TemperatureThresholdSpec)
    → fits t.absolute.temperature_threshold_in_celsius ≡ true
    → fits t.relative.temperature_threshold_percentage ≡ true
    → fits t.relative.sample_window ≡ true
    → decode_temperature (temperature_fields t) ≡ ok t
unfolding decode_temperature temperature_fields field_of fields_of
temperature-read t h k l =
    let absolute_name : String = "absoluteTemperatureThresholdInCelsius" in
    let relative_name : String = "relativeTemperatureThresholdInPercentage" in
    let rest =
      field absolute_name (obj (absolute_temperature_fields t.absolute))
        (field relative_name (obj (relative_temperature_fields t.relative)) end) in
    rw (
      string_of-string_field "kind" t.kind rest refl,
      field_of-string_field absolute_name "kind" t.kind rest refl,
      field_of-string_field relative_name "kind" t.kind rest refl,
      absolute_temperature-read t.absolute h,
      relative_temperature-read t.relative k l,
    )

-- Every number of the configuration is one of Go's `int`.
pub record SpecFits (s : PowerCappingConfigSpec) : Type 0 where
  pub watts : fits s.power_capping_spec.absolute.power_cap_in_watts ≡ true
  pub percentage : fits s.power_capping_spec.relative.power_cap_percentage ≡ true
  pub window : fits s.power_capping_spec.relative.sample_window ≡ true
  pub celsius : fits s.temperature_threshold_spec.absolute.temperature_threshold_in_celsius ≡ true
  pub threshold : fits s.temperature_threshold_spec.relative.temperature_threshold_percentage ≡ true
  pub temperature_window : fits s.temperature_threshold_spec.relative.sample_window ≡ true

spec-read : (s : PowerCappingConfigSpec) → SpecFits s → decode_spec (spec_fields s) ≡ ok s
unfolding decode_spec spec_fields field_of fields_of
spec-read s h =
    let temperature =
      field "temperatureThresholdSpec" (obj (temperature_fields s.temperature_threshold_spec))
        end in
    let rest =
      field "powerCappingSpec" (obj (power_capping_fields s.power_capping_spec)) temperature in
    let levels = string_field "efficiencyLevel" s.efficiency_level rest in
    rw (
      string_of-string_field "workloadType" s.workload_type levels
          (field_of-string_field "workloadType" "efficiencyLevel" s.efficiency_level rest refl),
      field_of-string_field "efficiencyLevel" "workloadType" s.workload_type levels refl,
      string_of-string_field "efficiencyLevel" s.efficiency_level rest refl,
      field_of-string_field "powerCappingSpec" "workloadType" s.workload_type levels refl,
      field_of-string_field "powerCappingSpec" "efficiencyLevel" s.efficiency_level rest refl,
      field_of-string_field "temperatureThresholdSpec" "workloadType" s.workload_type levels refl,
      field_of-string_field "temperatureThresholdSpec" "efficiencyLevel" s.efficiency_level rest
          refl,
      power_capping-read s.power_capping_spec h.watts h.percentage h.window,
      temperature-read s.temperature_threshold_spec h.celsius h.threshold h.temperature_window,
    )

status-read :
    (s : PowerCappingConfigStatus)
    → fits s.current_power_consumption ≡ true
    → fits s.forecast_power_consumption ≡ true
    → decode_status (status_fields s) ≡ ok s
unfolding decode_status status_fields
status-read s h k =
    let (first, second) =
      pair_read "currentPowerConsumption" "forecastPowerConsumption" s.current_power_consumption
        s.forecast_power_consumption refl refl h k in
    rw (first, second)

-- The decoding of the embedded types accepts objects whose `apiVersion` and `kind` are texts and
-- whose metadata has no key but a name and a namespace.
abbrev pub AcceptsNames : DecodeMeta → Type 0
AcceptsNames decode_meta =
    (version kind name namespace : String) (others : Fields)
    → decode_meta (
        field "apiVersion" (str version) (
          field "kind" (str kind) (
            field "metadata"
              (obj (string_field "name" name (string_field "namespace" namespace end))) others)))
      ≡ none

-- A configuration whose numbers have 64 bits is read back from its JSON form as it was, with a
-- decoding of the embedded types that accepts texts for the version, the kind, the name and the
-- namespace.
pub decode_config-config_fields :
    (decode_meta : DecodeMeta) (accepts : AcceptsNames decode_meta) (c : PowerCappingConfig)
    → SpecFits c.spec
    → fits c.status.current_power_consumption ≡ true
    → fits c.status.forecast_power_consumption ≡ true
    → decode_config decode_meta (config_fields c) ≡ ok c
unfolding decode_config config_fields field_of fields_of
decode_config-config_fields decode_meta accepts c h k l =
    let metadata = string_field "namespace" c.namespace end in
    rw (
      accepts (api_version group_version) "PowerCappingConfig" c.name c.namespace (
          field "spec" (obj (spec_fields c.spec))
            (field "status" (obj (status_fields c.status)) end)),
      string_of-string_field "name" c.name metadata
          (field_of-string_field "name" "namespace" c.namespace end refl),
      field_of-string_field "namespace" "name" c.name metadata refl,
      string_of-string_field "namespace" c.namespace end refl,
      spec-read c.spec h,
      status-read c.status k l,
    )
