-- ===== src/Controller/Metrics.antt =====
-- The Prometheus queries of the controller.
pub mod Labels
use Prim.Native.String.{◌++◌}
use climatik_project.Prelude.{String, Option, none, some, List, [], ◌∷◌, ◌==◌, if◌then◌else◌}
use climatik_project.Go.Result.{Error, Result, ok, err}
use climatik_project.Go.Text.{concat}
use climatik_project.Go.Map.{Map, insert}
use climatik_project.Go.Float.{Float}

unfoldable pub kepler_query : String → String → String
kepler_query device pod_name =
    concat ("kepler_container_" ∷ device ∷ "_joules_total{pod='" ∷ pod_name ∷ "'}" ∷ [])

-- The loop over the labels of a sample.
unfoldable pub find_label : String → Map String → Option String
find_label device [] = none
find_label device ((label_name, label_value) ∷ metric) =
    if label_name == device then some label_value else find_label device metric

abbrev pub no_data : String → Error
no_data device = concat ("no data with device " ∷ device ∷ " returned from Prometheus query" ∷ [])

unfoldable pub peak_query : String → String → String
peak_query pod_name window = concat (
    "max_over_time(sum(rate(kepler_container_joules_total{pod_name=~\"" ∷ pod_name ∷ "\"}[1m]))["
    ∷ window ∷ ":])" ∷ [])

module _ (f : Float) where
  pub record Sample : Type 0 where
    pub metric : Map String
    pub value : f.F

  -- `model.Value`: a vector, or a value of another type.
  pub data Value : Type 0 where
    vector : List Sample → Value
    other : Value

  -- `r.PrometheusClient.Query` at the time of the call; the warnings are only logged.
  abbrev pub Querier : Type 0
  Querier = String → Result Value

  -- The loop over the samples.
  unfoldable pub find_sample : String → List Sample → Option (f.F × String)
  find_sample device [] = none
  find_sample device (sample ∷ samples) = elim (find_label device sample.metric) [
    | some label ↦ some (sample.value, label)
    | none ↦ find_sample device samples
  ]

  abbrev pub or_no_data : String → Option (f.F × String) → Result (f.F × String)
  or_no_data device none = err (no_data device)
  or_no_data device (some r) = ok r

  -- What is made of the result of the query.
  unfoldable pub kepler_result : String → Result Value → Result (f.F × String)
  kepler_result device (err e) = err e
  kepler_result device (ok (vector samples)) = or_no_data device (find_sample device samples)
  kepler_result device (ok other) = err (no_data device)

  unfoldable pub get_kepler_metrics : Querier → String → String → Result (f.F × String)
  get_kepler_metrics query pod_name device =
      kepler_result device (query (kepler_query device pod_name))

  -- The loop of `getPodDevices`; a nil map is the empty one.
  unfoldable pub collect_devices : Querier → String → List String → Map String → Map String
  collect_devices query pod_name [] devices = devices
  collect_devices query pod_name (v ∷ vs) devices = elim (get_kepler_metrics query pod_name v) [
    | err e ↦ []
    | ok r ↦ collect_devices query pod_name vs (insert v r.1 devices)
  ]

  unfoldable pub get_pod_devices : Querier → String → Map String
  unfolding collect_devices
  get_pod_devices query pod_name = collect_devices query pod_name ("package" ∷ "gpu" ∷ []) []

  -- The first sample of the result; a result that is no vector has no samples.
  abbrev pub first_value : Value → Result f.F
  first_value (vector (sample ∷ samples)) = ok sample.value
  first_value (vector []) = err "no data returned from Prometheus query"
  first_value other = err "no data returned from Prometheus query"

  unfoldable pub query_pod_peak_power : Querier → String → String → Result f.F
  query_pod_peak_power query pod_name window = elim (query (peak_query pod_name window)) [
    | err e ↦ err e
    | ok value ↦ first_value value
  ]
