-- ===== src/Operator/Gauges.antt =====
-- python/climatik_operator/prom_metrics.py: the gauges that the operator sets.
pub mod Core
use climatik_project.Prelude.{String, Option, none, some, List, [], ◌∷◌, ◌++◌, ◌==◌, if◌then◌else◌}
use climatik_project.Go.Json.{Json, str, Fields}
use climatik_project.Operator.Python.{
  Exception, request_exception, value_error, type_error, Outcome, returned, raised, ◌>>=◌, find,
  item, dictionary, elements,
}
use climatik_project.Operator.Number.{Number, float}
use climatik_project.Operator.Cluster.{second}

pub data Gauge : Type 0 where
  scaled_objects replicas power_consumption forecast_power_consumption : Gauge
  cpu_time core_joules dram_joules gpu_joules : Gauge
  bpf_block_irq bpf_cpu_time_ms bpf_net_rx_irq bpf_net_tx_irq bpf_page_cache_hit joules : Gauge

-- `gauge.labels(deployment=deployment).set(value)`, with no label for `scaled_objects`.
pub record Setting (F : Type 0) : Type 0 where
  pub gauge : Gauge
  pub deployment : Option String
  pub value : F

-- `self.metrics`
abbrev pub metric_names : List String
metric_names =
    "kepler_container_gpu_joules_total" ∷ "kepler_container_dram_joules_total"
    ∷ "kepler_container_other_joules_total" ∷ "kepler_container_package_joules_total"
    ∷ "kepler_container_platform_joules_total" ∷ "kepler_container_uncore_joules_total"
    ∷ "kepler_node_core_joules_total" ∷ "kepler_node_other_joules_total"
    ∷ "kepler_container_bpf_block_irq_total" ∷ "kepler_container_bpf_cpu_time_ms_total"
    ∷ "kepler_container_bpf_net_rx_irq_total" ∷ "kepler_container_bpf_net_tx_irq_total"
    ∷ "kepler_container_bpf_page_cache_hit_total" ∷ "kepler_container_joules_total" ∷ []

-- The gauge that `update_metrics` sets for a metric.
unfoldable pub gauge_of : String → Option Gauge
gauge_of metric =
    if metric == "kepler_container_gpu_joules_total"
    then some gpu_joules
    else if metric == "kepler_container_dram_joules_total"
    then some dram_joules
    else if metric == "kepler_container_core_joules_total"
    then some core_joules
    else if metric == "kepler_container_bpf_block_irq_total"
    then some bpf_block_irq
    else if metric == "kepler_container_bpf_cpu_time_ms_total"
    then some bpf_cpu_time_ms
    else if metric == "kepler_container_bpf_net_rx_irq_total"
    then some bpf_net_rx_irq
    else if metric == "kepler_container_bpf_net_tx_irq_total"
    then some bpf_net_tx_irq
    else if metric == "kepler_container_bpf_page_cache_hit_total"
    then some bpf_page_cache_hit
    else if metric == "kepler_container_joules_total"
    then some joules
    else none

-- A label's value as a text; Prometheus has no others, and None for a missing one.
abbrev label_text : Option Json → Outcome String
label_text none = returned "None"
label_text (some (str s)) = returned s
label_text (some _) = raised type_error

module _ (n : Number) where
  abbrev pub setting_for : Option Gauge → String → n.F → List (Setting n.F)
  setting_for none deployment value = []
  setting_for (some gauge) deployment value =
      record { gauge = gauge; deployment = some deployment; value = value } ∷ []

  -- The deployment that a sample is about, and its value.
  unfoldable pub sample_reading : Json → Outcome (String × n.F)
  sample_reading sample = do
    labels ← item "metric" sample
    label_fields ← dictionary labels
    deployment ← label_text (find "pod_name" label_fields)
    value ← item "value" sample
    values ← elements value
    reading ← second values
    reading_value ← float n reading
    returned (deployment, reading_value)

  -- What one sample of a metric sets.
  unfoldable pub sample_settings : String → Json → Outcome (List (Setting n.F))
  sample_settings metric sample = do
    reading ← sample_reading sample
    returned (setting_for (gauge_of metric) reading.0 reading.1)

  -- The loop over the samples, with the exception that ends it.
  unfoldable pub update_samples : String → List Json → List (Setting n.F) × Option Exception
  update_samples metric [] = ([], none)
  update_samples metric (sample ∷ samples) = elim (sample_settings metric sample) [
    | raised e ↦ ([], some e)
    | returned added ↦ let (later, e) = update_samples metric samples in (added ++ later, e)
  ]

  abbrev pub metric_run : String → Outcome (List Json) → List (Setting n.F) × Option Exception
  metric_run metric (raised e) = ([], some e)
  metric_run metric (returned samples) = update_samples metric samples

  -- The exceptions that `update_metrics` handles.
  abbrev pub unhandled : Option Exception → Option Exception
  unhandled (some (request_exception e)) = none
  unhandled (some value_error) = none
  unhandled e = e

  -- The loop over the metrics, by what `get_current_metric_value` answers.
  unfoldable pub update_each :
      (String → Outcome (List Json)) → List String → List (Setting n.F) × Option Exception
  update_each answer [] = ([], none)
  update_each answer (metric ∷ metrics) =
      let (settings, e) = metric_run metric (answer metric) in
      elim (unhandled e) [
        | some x ↦ (settings, some x)
        | none ↦ let (later, x) = update_each answer metrics in (settings ++ later, x)
      ]

  unfoldable pub update_metrics :
      (String → Outcome (List Json)) → List (Setting n.F) × Option Exception
  update_metrics answer = update_each answer metric_names

  -- `start_server`, by the outcome of `start_http_server`.
  unfoldable pub start_server :
      Option Exception → (String → Outcome (List Json)) → List (Setting n.F) × Option Exception
  unfolding update_metrics
  start_server (some e) answer = ([], some e)
  start_server none answer = update_metrics answer
