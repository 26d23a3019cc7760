-- ===== src/Controller/Metrics/Labels.antt =====
-- What `getKeplerMetrics` and `getPodDevices` find, and that the order in which Go visits the
-- labels of a sample does not matter.
use mathlib.Core.List.{Perm}
use mathlib.Core.Option.{some-injective}
use climatik_project.Prelude.{
  String, ◌≡◌, refl, sym, ap, ◌∙◌, Option, none, some, List, [], ◌∷◌, ◌++◌, ◌⊎◌, inl, inr, arith,
  All, Option-cases,
}
use climatik_project.Go.Result.{Error, Result, ok, err, Result-cases}
use climatik_project.Go.Map.{Map, lookup, insert}
use climatik_project.Go.Map.Order.{IsDistinct, lookup-perm}
use climatik_project.Go.Float.{Float}
use climatik_project.Controller.Metrics.{
  Sample, Querier, Value, vector, other, kepler_query, find_label, find_sample, or_no_data,
  kepler_result, get_kepler_metrics, get_pod_devices,
}

find_label-eq-lookup :
    (device : String) (metric : Map String) → find_label device metric ≡ lookup device metric
unfolding find_label lookup
find_label-eq-lookup device [] = refl
find_label-eq-lookup device ((k, v) ∷ metric) = ground (arith, find_label-eq-lookup device metric)

module _ (f : Float) where
  -- The same samples, with the labels of each in another order.
  abbrev pub AreReordered : List (Sample f) → List (Sample f) → Type 0
  AreReordered [] [] = Unit
  AreReordered (s ∷ ss) (t ∷ ts) =
      IsDistinct s.metric × Perm s.metric t.metric × Path f.F s.value t.value × AreReordered ss ts
  AreReordered _ _ = ⊥

  find_sample-reordered :
      (device : String) (ss ts : List (Sample f))
      → AreReordered ss ts
      → find_sample f device ss ≡ find_sample f device ts
  unfolding find_sample
  find_sample-reordered device [] [] h = refl
  find_sample-reordered device (s ∷ ss) (t ∷ ts) (d, p, v, h) =
      let same : find_label device s.metric ≡ find_label device t.metric =
        find_label-eq-lookup device s.metric
        ∙ lookup-perm p d device
        ∙ sym (find_label-eq-lookup device t.metric) in
      ground (arith, same, v, find_sample-reordered device ss ts h)
  find_sample-reordered device [] (t ∷ ts) h = absurd h
  find_sample-reordered device (s ∷ ss) [] h = absurd h

  -- The labels of a sample are a Go map, which a loop visits in any order: two runs that receive
  -- the same samples, their labels visited in different orders, return the same power and label.
  pub get_kepler_metrics-reordered :
      (query query' : Querier f) (pod_name device : String) (ss ts : List (Sample f))
      → query (kepler_query device pod_name) ≡ ok (vector ss)
      → query' (kepler_query device pod_name) ≡ ok (vector ts)
      → AreReordered ss ts
      → get_kepler_metrics f query pod_name device ≡ get_kepler_metrics f query' pod_name device
  unfolding get_kepler_metrics
  get_kepler_metrics-reordered query query' pod_name device ss ts e e' h =
      rw (e, e') (unfold kepler_result in rw (find_sample-reordered device ss ts h))

  -- What a successful query of a device means: the sample is the first that carries the label.
  pub record IsFirstWith (device : String) (samples : List (Sample f)) (r : f.F × String)
      : Type 0 where
    pub before : List (Sample f)
    pub sample : Sample f
    pub after : List (Sample f)
    pub place : samples ≡ before ++ sample ∷ after
    pub none_before : All (λ (s : Sample f). lookup device s.metric ≡ none) before
    pub power : Path f.F sample.value r.0
    pub label : lookup device sample.metric ≡ some r.1

  find_sample-IsFirstWith :
      (device : String) (samples : List (Sample f)) (r : f.F × String)
      → find_sample f device samples ≡ some r
      → IsFirstWith device samples r
  unfolding find_sample
  find_sample-IsFirstWith device [] r e = cc
  find_sample-IsFirstWith device (s ∷ ss) r e = elim (Option-cases (find_label device s.metric)) [
    | inl missing ↦
        let first = find_sample-IsFirstWith device ss r (rw (missing, find_sample) at e) in
        record {
          before = s ∷ first.before;
          sample = first.sample;
          after = first.after;
          place = ap (◌∷◌ s) first.place;
          none_before = (sym (find_label-eq-lookup device s.metric) ∙ missing, first.none_before);
          power = first.power;
          label = first.label;
        }
    | inr (label, present) ↦
        let got : Path (f.F × String) (s.value, label) r =
          some-injective (s.value, label) r (rw (present, find_sample) at e) in
        record {
          before = [];
          sample = s;
          after = ss;
          place = refl;
          none_before = tt;
          power = ap (λ x. x.0) got;
          label = sym (find_label-eq-lookup device s.metric) ∙ present ∙ ap (λ x. some x.1) got;
        }
  ]

  or_no_data-eq-ok :
      (device : String) (o : Option (f.F × String)) (r : f.F × String)
      → or_no_data f device o ≡ ok r
      → o ≡ some r
  or_no_data-eq-ok device none r h = cc
  or_no_data-eq-ok device (some x) r h = cc

  kepler_result-eq-ok :
      (device : String) (x : Result (Value f)) (r : f.F × String)
      → kepler_result f device x ≡ ok r
      → (samples : List (Sample f)) × (x ≡ ok (vector samples)) × IsFirstWith device samples r
  unfolding kepler_result
  kepler_result-eq-ok device (err e) r h = cc
  kepler_result-eq-ok device (ok other) r h = cc
  kepler_result-eq-ok device (ok (vector samples)) r h =
      (samples, refl, find_sample-IsFirstWith device samples r (or_no_data-eq-ok device _ r h))

  -- `getKeplerMetrics` succeeds only with a vector, and returns the value of the first sample that
  -- has the device among its labels, with that label's text.
  pub get_kepler_metrics-IsFirstWith :
      (query : Querier f) (pod_name device : String) (r : f.F × String)
      → get_kepler_metrics f query pod_name device ≡ ok r
      → (samples : List (Sample f)) × (query (kepler_query device pod_name) ≡ ok (vector samples))
        × IsFirstWith device samples r
  unfolding get_kepler_metrics
  get_kepler_metrics-IsFirstWith query pod_name device r e =
      kepler_result-eq-ok device (query (kepler_query device pod_name)) r e

  -- `getPodDevices` returns both devices, each with the label of its query, if both queries
  -- succeed, and no device at all if one of them fails.
  get_pod_devices_cases :
      (query : Querier f) (pod_name : String)
      → ((cpu : f.F × String) × (gpu : f.F × String) × (get_kepler_metrics f query pod_name
              "package"
            ≡ ok cpu)
          × (get_kepler_metrics f query pod_name "gpu" ≡ ok gpu)
          × (get_pod_devices f query pod_name ≡ ("package", cpu.1) ∷ ("gpu", gpu.1) ∷ []))
        ⊎ ((device : String) × (e : Error) × (get_kepler_metrics f query pod_name device ≡ err e)
            × ((device ≡ "package") ⊎ (device ≡ "gpu"))
            × (get_pod_devices f query pod_name ≡ []))
  unfolding get_pod_devices insert
  get_pod_devices_cases query pod_name =
      elim (Result-cases (get_kepler_metrics f query pod_name "package")) [
        | inr (e, bad) ↦ inr ("package", e, bad, inl refl, ground arith)
        | inl (cpu, good) ↦ elim (Result-cases (get_kepler_metrics f query pod_name "gpu")) [
          | inr (e, bad) ↦ inr ("gpu", e, bad, inr refl, ground arith)
          | inl (gpu, fine) ↦ inl (cpu, gpu, good, fine, ground arith)
        ]
      ]
