-- ===== src/Operator/Monitor/Exceeded.antt =====
-- What two busy deployments are allowed together, in whole numbers.
use climatik_project.Prelude.{
  ℕ, ◌+◌, ◌*◌, ◌/◌, ◌≤◌, ◌<◌, String, Option, none, some, List, [], ◌∷◌, ◌≡◌, refl, sym, ap, inl,
  inr, arith, All, length,
}
use climatik_project.Prelude.Int.{ℤ, pos}
use climatik_project.Go.Json.{Json, null, num, arr, nil, Fields}
use climatik_project.Go.Map.{Map, get, lookup}
use climatik_project.Go.Map.Order.{IsDistinct, AreListed, IsDistinct-AreListed}
use climatik_project.Operator.Python.{
  Exception, Outcome, returned, raised, elements, get_or, Outcome-cases,
}
use climatik_project.Operator.Number.{number, true_div}
use climatik_project.Operator.Number.Whole.{whole}
use climatik_project.Operator.Cluster.{Cluster, patch_each}
use climatik_project.Operator.Strategy.{PowerCappingStrategy, allowed_replicas}
use climatik_project.Operator.Monitor.Readings.{read_all-IsRead}
use climatik_project.Operator.Monitor.Limits.{monitor-patches, updated_replicas-IsChosen}
use climatik_project.Operator.Monitor.Scaled.{PatchLaws}
use climatik_project.Operator.Monitor.Returns.{
  IsPositive, HasReplicas, PatchesExisting, monitor_power_usage-returns,
}
use climatik_project.Operator.Monitor.Forecasts.{Fresh, forecasts, report_each-forecasts}
use climatik_project.Operator.Monitor.{
  Usage, Status, no_usage, read_all, add_values, updated_replicas, scale_object, report,
  report_each, after_patches, monitor_power_usage, status_of,
}

-- The deployment consumes power, and not more than the limit.
abbrev pub IsBusy : ℕ → String × ℕ → Type 0
IsBusy c (deployment, power) = (0 < power) × (power ≤ c)

busy-IsPositive : (c : ℕ) (ps : Map ℕ) → All (IsBusy c) ps → All IsPositive ps
busy-IsPositive c [] h = tt
busy-IsPositive c (e ∷ ps) (h, hs) = (h.0, busy-IsPositive c ps hs)

more_than_half : (c p : ℕ) → 0 < p → p ≤ c → c < 2 * (p * (c / p))
more_than_half c p h k = let once : p ≤ p * (c / p) = grind arith in grind arith

allowed-eq :
    (c p : ℕ) (q : ℤ)
    → 0 < p
    → allowed_replicas whole (num (pos c)) p ≡ returned q
    → q ≡ pos (c / p)
unfolding allowed_replicas true_div number
allowed-eq c p q h e = ground arith

-- Each deployment gets what the whole limit allows it.
abbrev HasShare : ℕ → Map ℤ → String × ℕ → Type 0
HasShare c updated (deployment, power) = get (pos 1) deployment updated ≡ pos (c / power)

forecasts-exceed :
    (c : ℕ) (updated : Map ℤ) (ps : Map ℕ)
    → 2 ≤ length ps
    → All (IsBusy c) ps
    → All (HasShare c updated) ps
    → c < forecasts updated ps
forecasts-exceed c updated [] h b f = absurd (omega arith)
forecasts-exceed c updated (e ∷ []) h b f = absurd (omega arith)
forecasts-exceed c updated ((d, p) ∷ (d', p') ∷ ps) h (b, (b', bs)) (f, (f', fs)) =
    rw (f, f') (omega (arith, more_than_half c p b.0 b.1, more_than_half c p' b'.0 b'.1))

module _ (cluster : Cluster) where
  add_values-le : (a : ℕ) (m : Map ℕ) → a ≤ add_values whole cluster a m
  unfolding add_values
  add_values-le a [] = omega arith
  add_values-le a ((k, x) ∷ m) = omega (arith, add_values-le (a + x) m)

  total_pos :
      (c : ℕ) (ps : Map ℕ) → 2 ≤ length ps → All (IsBusy c) ps → 0 < add_values whole cluster 0 ps
  unfolding add_values
  total_pos c [] h b = absurd (omega arith)
  total_pos c ((k, x) ∷ ps) h (b, bs) = omega (arith, add_values-le (0 + x) ps)

  chosen-HasShare :
      (c : ℕ) (usage : Usage ℕ) (updated : Map ℤ) (strategy : PowerCappingStrategy)
      (entries : Map ℕ)
      → 0 < add_values whole cluster 0 usage.power_consumptions
      → updated_replicas whole cluster strategy (num (pos c)) usage ≡ returned updated
      → IsDistinct usage.power_consumptions
      → AreListed usage.power_consumptions entries
      → All (IsBusy c) entries
      → All (HasShare c updated) entries
  chosen-HasShare c usage updated strategy [] busy e distinct h b = tt
  chosen-HasShare c usage updated strategy ((d, p) ∷ entries) busy e distinct (h, hs) (b, bs) = (
    elim (updated_replicas-IsChosen whole cluster strategy "" (num (pos c)) usage updated d p e
        distinct h) [
          | inl (some_power, allowed) ↦ allowed-eq c p (get (pos 1) d updated) b.0 allowed
          | inr (idle, one) ↦ absurd (ground arith)
        ],
    chosen-HasShare c usage updated strategy entries busy e distinct hs bs,
  )

  -- A status sums the forecasts of the third loop.
  abbrev Sums : Usage ℕ → Map ℤ → Status ℕ → Type 0
  Sums usage updated status =
      (last : Map ℕ) × ((report_each whole cluster updated usage.current_replicas
          usage.power_consumptions []).0
        ≡ returned last)
      × (status.forecast_power_consumption ≡ add_values whole cluster 0 last)

  report-Sums :
      (usage : Usage ℕ) (updated : Map ℤ) (s : cluster.S) (count : Outcome ℕ) (status : Status ℕ)
      → (report whole cluster usage updated s count).outcome ≡ returned status
      → Sums usage updated status
  unfolding report
  report-Sums usage updated s (raised e) status h = absurd (cc)
  report-Sums usage updated s (returned count) status h =
      let run =
        (report_each whole cluster updated usage.current_replicas usage.power_consumptions []).0 in
      elim (Outcome-cases run) [
        | inr (x, bad) ↦ let h' = rw (bad, report) at h in absurd (cc)
        | inl (last, fine) ↦
            let h' = rw (fine, report) at h in
            let same : status_of whole cluster usage last ≡ status = cc in
            (last, fine, ap (λ (t : Status ℕ). t.forecast_power_consumption) (sym same))
      ]

  after_patches-Sums :
      (usage : Usage ℕ) (updated : Map ℤ) (refs : List Json) (p : Option Exception × cluster.S)
      (status : Status ℕ)
      → (after_patches whole cluster usage updated refs p).outcome ≡ returned status
      → Sums usage updated status
  after_patches-Sums usage updated refs (some e, s) status h = absurd (cc)
  after_patches-Sums usage updated refs (none, s) status h =
      report-Sums usage updated s (number whole (num (pos (length refs)))) status h

  -- Nothing has a forecast at first.
  all-Fresh : (ps : Map ℕ) → Fresh ps []
  unfolding lookup
  all-Fresh [] = tt
  all-Fresh (e ∷ ps) = (refl, all-Fresh ps)

  module _ (strategy : PowerCappingStrategy) (namespace : String) where
    monitor-Sums :
        (spec : Fields) (s : cluster.S) (refs : List Json) (usage : Usage ℕ) (updated : Map ℤ)
        (status : Status ℕ)
        → elements (get_or (arr nil) "scaledObjectRefs" spec) ≡ returned refs
        → read_all whole cluster namespace s refs (no_usage whole cluster) ≡ returned usage
        → updated_replicas whole cluster strategy (get_or null "powerCapLimit" spec) usage
          ≡ returned updated
        → (monitor_power_usage whole cluster strategy namespace spec s).outcome ≡ returned status
        → Sums usage updated status
    unfolding monitor_power_usage
    monitor-Sums spec s refs usage updated status some_refs read fine e =
        after_patches-Sums usage updated refs
          (patch_each whole cluster (scale_object whole cluster namespace updated) refs s) status
          (rw (some_refs, read, fine) at e)

    forecast-exceeds :
        (c : ℕ) (spec : Fields) (s : cluster.S) (refs : List Json) (usage : Usage ℕ)
        (status : Status ℕ)
        → get_or null "powerCapLimit" spec ≡ num (pos c)
        → elements (get_or (arr nil) "scaledObjectRefs" spec) ≡ returned refs
        → read_all whole cluster namespace s refs (no_usage whole cluster) ≡ returned usage
        → 2 ≤ length usage.power_consumptions
        → All (IsBusy c) usage.power_consumptions
        → (monitor_power_usage whole cluster strategy namespace spec s).outcome ≡ returned status
        → c < status.forecast_power_consumption
    forecast-exceeds c spec s refs usage status cap some_refs read two busy e =
        let ps = usage.power_consumptions in
        let (updated, fine, patches) =
          monitor-patches whole cluster strategy namespace spec s refs usage status some_refs read
            e in
        let (distinct, all_read) =
          read_all-IsRead whole cluster namespace s refs (no_usage whole cluster) usage read tt in
        let (last, run, total) =
          monitor-Sums spec s refs usage updated status some_refs read fine e in
        let shares =
          chosen-HasShare c usage updated strategy ps (total_pos c ps two busy) (rw cap at fine)
            distinct (IsDistinct-AreListed ps distinct) busy in
        let sum =
          report_each-forecasts cluster updated usage.current_replicas ps [] last distinct
            (all-Fresh ps) run in
        unfold add_values in
        omega (arith, total, sum, forecasts-exceed c updated ps two busy shares)

    -- In whole numbers, against a cluster in which a patch of an object that is there succeeds,
    -- sets it and no other: if the limit is a number, the usage can be read, the current replicas
    -- of every deployment are a number, and two or more deployments consume power, each some and
    -- not more than the limit, then the run gives a status, and it has allowed so many replicas
    -- that its forecast is above the limit.
    pub monitor_power_usage-exceeds :
        (laws : PatchLaws cluster) (patches : PatchesExisting cluster) (c : ℕ) (spec : Fields)
        (s : cluster.S) (refs : List Json) (usage : Usage ℕ)
        → get_or null "powerCapLimit" spec ≡ num (pos c)
        → elements (get_or (arr nil) "scaledObjectRefs" spec) ≡ returned refs
        → read_all whole cluster namespace s refs (no_usage whole cluster) ≡ returned usage
        → All (HasReplicas cluster usage.current_replicas) usage.power_consumptions
        → 2 ≤ length usage.power_consumptions
        → All (IsBusy c) usage.power_consumptions
        → (status : Status ℕ) × ((monitor_power_usage whole cluster strategy namespace spec
              s).outcome
            ≡ returned status)
          × (c < status.forecast_power_consumption)
    monitor_power_usage-exceeds laws patches c spec s refs usage cap some_refs read counts two
          busy =
        let (status, ran) =
          monitor_power_usage-returns cluster strategy namespace laws patches (pos c) spec s refs
            usage cap some_refs read (busy-IsPositive c usage.power_consumptions busy) counts in
        (status, ran, forecast-exceeds c spec s refs usage status cap some_refs read two busy ran)
