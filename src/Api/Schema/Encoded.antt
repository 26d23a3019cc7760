-- ===== src/Api/Schema/Encoded.antt =====
-- The JSON form of a configuration has the type that the schema gives it.
use climatik_project.Prelude.{String, true, false, ◌==◌, ◌≡◌, refl, sym, subst, arith, eq_refl}
use climatik_project.Prelude.Int.{ℤ, pos, negsuc}
use climatik_project.Go.Json.{null, obj, Fields, end, field, field_of}
use climatik_project.Api.{
  AbsolutePowerCapInWattsSpec, RelativePowerCapInPercentageSpec, PowerCappingSpec,
  AbsoluteTemperatureThresholdInCelsiusSpec, RelativeTemperatureThresholdInPercentageSpec,
  TemperatureThresholdSpec, PowerCappingConfigSpec, PowerCappingConfigStatus, PowerCappingConfig,
}
use climatik_project.Api.Encode.{
  int_field, string_field, absolute_fields, relative_fields, power_capping_fields,
  absolute_temperature_fields, relative_temperature_fields, temperature_fields, spec_fields,
  status_fields, config_fields,
}
use climatik_project.Api.Decode.{fits}
use climatik_project.Api.Decode.Single.{field_of-int_field, field_of-string_field}
use climatik_project.Api.Decode.RoundTrip.{SpecFits}
use climatik_project.Api.Schema.{
  Schema, text_type, integer_type, any_object, property, has_type, absolute_schema, relative_schema,
  power_capping_schema, absolute_temperature_schema, relative_temperature_schema,
  temperature_schema, spec_schema, status_schema, config_schema,
}
use climatik_project.Api.Schema.Values.{Accepts}

typed :
    (k : String) (s rest : Schema) (fs : Fields)
    → Accepts s (field_of k fs)
    → has_type rest (obj fs) ≡ true
    → has_type (property k s rest) (obj fs) ≡ true
unfolding has_type
typed k s rest fs a h = rw (a, h) refl

typed_any : (fs : Fields) → has_type any_object (obj fs) ≡ true
unfolding has_type
typed_any fs = refl

int_field-Accepts :
    (name : String) (n : ℤ) (rest : Fields)
    → field_of name rest ≡ null
    → fits n ≡ true
    → Accepts integer_type (field_of name (int_field name n rest))
unfolding field_of has_type
int_field-Accepts name (pos n) rest h f = ground (arith, eq_refl name)
int_field-Accepts name (negsuc n) rest h f = ground (arith, eq_refl name)

string_field-Accepts :
    (name s : String) (rest : Fields)
    → field_of name rest ≡ null
    → Accepts text_type (field_of name (string_field name s rest))
unfolding field_of has_type
string_field-Accepts name s rest h = ground (arith, eq_refl name)

-- Another key behind a text.
after_string :
    (s : Schema) (k name t : String) (rest : Fields)
    → (name == k) ≡ false
    → Accepts s (field_of k rest)
    → Accepts s (field_of k (string_field name t rest))
after_string s k name t rest ne h =
    subst (Accepts s) (sym (field_of-string_field k name t rest ne)) h

absolute-has_type :
    (a : AbsolutePowerCapInWattsSpec)
    → fits a.power_cap_in_watts ≡ true
    → has_type absolute_schema (obj (absolute_fields a)) ≡ true
unfolding absolute_fields field_of
absolute-has_type a h =
    typed _ _ _ (absolute_fields a)
      (int_field-Accepts "powerCapInWatts" a.power_cap_in_watts end refl h) (typed_any _)

-- Two integers, whichever is asked for first.
pair-has_type :
    (a b : String) (n k : ℤ)
    → (a == b) ≡ false
    → (b == a) ≡ false
    → fits n ≡ true
    → fits k ≡ true
    → Accepts integer_type (field_of a (int_field a n (int_field b k end)))
      × Accepts integer_type (field_of b (int_field a n (int_field b k end)))
unfolding field_of
pair-has_type a b n k ne en fn fk = (
  int_field-Accepts a n (int_field b k end) (rw (field_of-int_field a b k end en) refl) fn,
  rw (field_of-int_field b a n (int_field b k end) ne) (int_field-Accepts b k end refl fk),
)

relative-has_type :
    (r : RelativePowerCapInPercentageSpec)
    → fits r.power_cap_percentage ≡ true
    → fits r.sample_window ≡ true
    → has_type relative_schema (obj (relative_fields r)) ≡ true
unfolding relative_fields
relative-has_type r h k =
    let (first, second) =
      pair-has_type "powerCapPercentage" "sampleWindow" r.power_cap_percentage r.sample_window refl
        refl h k in
    typed _ _ _ (relative_fields r) first (typed _ _ _ (relative_fields r) second (typed_any _))

absolute_temperature-has_type :
    (a : AbsoluteTemperatureThresholdInCelsiusSpec)
    → fits a.temperature_threshold_in_celsius ≡ true
    → has_type absolute_temperature_schema (obj (absolute_temperature_fields a)) ≡ true
unfolding absolute_temperature_fields field_of
absolute_temperature-has_type a h =
    typed _ _ _ (absolute_temperature_fields a)
      (int_field-Accepts "temperatureThresholdInCelsius" a.temperature_threshold_in_celsius end refl
        h)
      (typed_any _)

relative_temperature-has_type :
    (r : RelativeTemperatureThresholdInPercentageSpec)
    → fits r.temperature_threshold_percentage ≡ true
    → fits r.sample_window ≡ true
    → has_type relative_temperature_schema (obj (relative_temperature_fields r)) ≡ true
unfolding relative_temperature_fields
relative_temperature-has_type r h k =
    let (first, second) =
      pair-has_type "temperatureThresholdPercentage" "sampleWindow"
        r.temperature_threshold_percentage r.sample_window refl refl h k in
    typed _ _ _ (relative_temperature_fields r) second
      (typed _ _ _ (relative_temperature_fields r) first (typed_any _))

power_capping-has_type :
    (p : PowerCappingSpec)
    → fits p.absolute.power_cap_in_watts ≡ true
    → fits p.relative.power_cap_percentage ≡ true
    → fits p.relative.sample_window ≡ true
    → has_type power_capping_schema (obj (power_capping_fields p)) ≡ true
unfolding power_capping_fields field_of
power_capping-has_type p h k l =
    let rest =
      field "absolutePowerCapInWatts" (obj (absolute_fields p.absolute))
        (field "relativePowerCapInPercentage" (obj (relative_fields p.relative)) end) in
    typed _ _ _ (power_capping_fields p)
      (after_string absolute_schema "absolutePowerCapInWatts" "kind" p.kind rest refl
        (absolute-has_type p.absolute h))
      (typed _ _ _ (power_capping_fields p) (string_field-Accepts "kind" p.kind rest refl) (
        typed _ _ _ (power_capping_fields p)
          (after_string relative_schema "relativePowerCapInPercentage" "kind" p.kind rest refl
            (relative-has_type p.relative k l))
          (typed_any _)))

temperature-has_type :
    (t : TemperatureThresholdSpec)
    → fits t.absolute.temperature_threshold_in_celsius ≡ true
    → fits t.relative.temperature_threshold_percentage ≡ true
    → fits t.relative.sample_window ≡ true
    → has_type temperature_schema (obj (temperature_fields t)) ≡ true
unfolding temperature_fields field_of
temperature-has_type t h k l =
    let absolute_name : String = "absoluteTemperatureThresholdInCelsius" in
    let relative_name : String = "relativeTemperatureThresholdInPercentage" in
    let rest =
      field absolute_name (obj (absolute_temperature_fields t.absolute))
        (field relative_name (obj (relative_temperature_fields t.relative)) end) in
    typed _ _ _ (temperature_fields t)
      (after_string absolute_temperature_schema absolute_name "kind" t.kind rest refl
        (absolute_temperature-has_type t.absolute h))
      (typed _ _ _ (temperature_fields t) (string_field-Accepts "kind" t.kind rest refl) (
        typed _ _ _ (temperature_fields t)
          (after_string relative_temperature_schema relative_name "kind" t.kind rest refl
            (relative_temperature-has_type t.relative k l))
          (typed_any _)))

spec-has_type :
    (s : PowerCappingConfigSpec) → SpecFits s → has_type spec_schema (obj (spec_fields s)) ≡ true
unfolding spec_fields field_of
spec-has_type s h =
    let temperature =
      field "temperatureThresholdSpec" (obj (temperature_fields s.temperature_threshold_spec))
        end in
    let rest =
      field "powerCappingSpec" (obj (power_capping_fields s.power_capping_spec)) temperature in
    let levels = string_field "efficiencyLevel" s.efficiency_level rest in
    typed _ _ _ (spec_fields s)
      (after_string text_type "efficiencyLevel" "workloadType" s.workload_type levels refl
        (string_field-Accepts "efficiencyLevel" s.efficiency_level rest refl))
      (typed _ _ _ (spec_fields s)
        (after_string power_capping_schema "powerCappingSpec" "workloadType" s.workload_type levels
          refl
          (after_string power_capping_schema "powerCappingSpec" "efficiencyLevel" s.efficiency_level
            rest refl (power_capping-has_type s.power_capping_spec h.watts h.percentage h.window)))
        (typed _ _ _ (spec_fields s)
          (after_string temperature_schema "temperatureThresholdSpec" "workloadType" s.workload_type
            levels refl
            (after_string temperature_schema "temperatureThresholdSpec" "efficiencyLevel"
              s.efficiency_level rest refl
              (temperature-has_type s.temperature_threshold_spec h.celsius h.threshold
                h.temperature_window)))
          (typed _ _ _ (spec_fields s)
            (string_field-Accepts "workloadType" s.workload_type levels
              (field_of-string_field "workloadType" "efficiencyLevel" s.efficiency_level rest refl))
            (typed_any _))))

status-has_type :
    (s : PowerCappingConfigStatus)
    → fits s.current_power_consumption ≡ true
    → fits s.forecast_power_consumption ≡ true
    → has_type status_schema (obj (status_fields s)) ≡ true
unfolding status_fields
status-has_type s h k =
    let (first, second) =
      pair-has_type "currentPowerConsumption" "forecastPowerConsumption" s.current_power_consumption
        s.forecast_power_consumption refl refl h k in
    typed _ _ _ (status_fields s) first (typed _ _ _ (status_fields s) second (typed_any _))

-- The JSON form of every configuration whose numbers have 64 bits has the type that the schema of
-- the custom resource gives it.
pub config_fields-has_type :
    (c : PowerCappingConfig)
    → SpecFits c.spec
    → fits c.status.current_power_consumption ≡ true
    → fits c.status.forecast_power_consumption ≡ true
    → has_type config_schema (obj (config_fields c)) ≡ true
unfolding config_fields field_of has_type
config_fields-has_type c h k l = rw (spec-has_type c.spec h, status-has_type c.status k l) refl
