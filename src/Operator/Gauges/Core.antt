-- ===== src/Operator/Gauges/Core.antt =====
-- The gauge of the joules of the cores.
use climatik_project.Prelude.{
  String, Option, none, some, List, [], ◌∷◌, ◌≡◌, ◌≢◌, ap, subst, inl, inr, arith, All, All-append,
  Option-cases,
}
use climatik_project.Go.Json.{Json}
use climatik_project.Operator.Python.{Outcome, returned, raised, Outcome-cases}
use climatik_project.Operator.Number.{Number}
use climatik_project.Operator.Gauges.{
  Gauge, core_joules, setting_for, metric_run, unhandled, Setting, metric_names, gauge_of,
  sample_reading, sample_settings, update_samples, update_each, update_metrics,
}

module _ (n : Number) where
  abbrev IsOther : Setting n.F → Type 0
  IsOther setting = setting.gauge ≢ core_joules

  setting_for-IsOther :
      (gauge : Option Gauge) (deployment : String) (value : n.F)
      → gauge ≢ some core_joules
      → All IsOther (setting_for n gauge deployment value)
  setting_for-IsOther none deployment value h = tt
  setting_for-IsOther (some gauge) deployment value h = ((λ e. h (ap some e)), tt)

  sample_settings-IsOther :
      (metric : String) (sample : Json) (added : List (Setting n.F))
      → gauge_of metric ≢ some core_joules
      → sample_settings n metric sample ≡ returned added
      → All IsOther added
  unfolding sample_settings
  sample_settings-IsOther metric sample added h e = elim (Outcome-cases (sample_reading n sample)) [
    | inr (x, bad) ↦ let h' = rw bad at e in absurd (cc)
    | inl (reading, fine) ↦
        let same : setting_for n (gauge_of metric) reading.0 reading.1 ≡ added =
          let h' = rw fine at e in cc in
        subst (All IsOther) same (setting_for-IsOther (gauge_of metric) reading.0 reading.1 h)
  ]

  update_samples-IsOther :
      (metric : String) (samples : List Json)
      → gauge_of metric ≢ some core_joules
      → All IsOther (update_samples n metric samples).0
  unfolding update_samples
  update_samples-IsOther metric [] h = tt
  update_samples-IsOther metric (sample ∷ samples) h =
      elim (Outcome-cases (sample_settings n metric sample)) [
        | inr (x, bad) ↦ rw (bad, update_samples) tt
        | inl (added, fine) ↦
            rw (fine, update_samples)
              (All-append IsOther added (update_samples n metric samples).0
                (sample_settings-IsOther metric sample added h fine)
                (update_samples-IsOther metric samples h))
      ]

  metric_run-IsOther :
      (metric : String) (r : Outcome (List Json))
      → gauge_of metric ≢ some core_joules
      → All IsOther (metric_run n metric r).0
  metric_run-IsOther metric (raised e) h = tt
  metric_run-IsOther metric (returned samples) h = update_samples-IsOther metric samples h

  update_each-IsOther :
      (answer : String → Outcome (List Json)) (metrics : List String)
      → All (λ metric. gauge_of metric ≢ some core_joules) metrics
      → All IsOther (update_each n answer metrics).0
  unfolding update_each
  update_each-IsOther answer [] h = tt
  update_each-IsOther answer (metric ∷ metrics) (h, hs) =
      elim (Option-cases (unhandled n (metric_run n metric (answer metric)).1)) [
        | inl go ↦
            rw (go, update_each)
              (All-append IsOther _ _ (metric_run-IsOther metric (answer metric) h)
                (update_each-IsOther answer metrics hs))
        | inr (x, stop) ↦ rw (stop, update_each) (metric_run-IsOther metric (answer metric) h)
      ]

  -- `update_metrics` never sets the gauge of the joules of the cores, whatever Prometheus answers.
  update_metrics-IsOther :
      (answer : String → Outcome (List Json)) → All IsOther (update_metrics n answer).0
  unfolding update_metrics gauge_of
  update_metrics-IsOther answer = update_each-IsOther answer metric_names (ground arith)
