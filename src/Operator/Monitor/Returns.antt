-- ===== src/Operator/Monitor/Returns.antt =====
-- When a run of `monitor_power_usage` gives a status, in whole numbers.
use climatik_project.Prelude.{
  ℕ, ◌<◌, ◌*◌, ◌/◌, String, none, some, ltb, List, [], ◌∷◌, ◌≡◌, refl, inl, inr, arith, All,
  Bool-cases, length, Option-cases,
}
use climatik_project.Prelude.Int.{ℤ, pos}
use climatik_project.Go.Json.{Json, null, num, obj, arr, nil, Fields, set_field}
use climatik_project.Go.Map.{Map, get, insert}
use climatik_project.Operator.Python.{returned, elements, get_or, item, find}
use climatik_project.Operator.Number.{number, float, true_div}
use climatik_project.Operator.Number.Whole.{whole, from_int}
use climatik_project.Operator.Cluster.{
  ObjectKey, Cluster, deployment_name, with_max_replicas, patch_one, patch_each,
}
use climatik_project.Operator.Strategy.{
  PowerCappingStrategy, maximize_replicas, prioritize_high_replica, allowed_replicas, fill_replicas,
  calculate_max_replicas,
}
use climatik_project.Operator.Monitor.Rounds.{Scales, patch_one-Patched}
use climatik_project.Operator.Monitor.Readings.{IsRead, read_all-IsRead}
use climatik_project.Operator.Monitor.Scaled.{PatchLaws, Patched-keeps-Scales}
use climatik_project.Operator.Monitor.{
  Usage, Status, no_usage, ref_key, scaled_object_of, read_all, add_values, updated_replicas,
  scale_object, forecast_of, status_of, report_each, report, monitor_power_usage,
}

abbrev pub IsPositive : String × ℕ → Type 0
IsPositive (deployment, power) = 0 < power

allowed_replicas-returns :
    (c : ℤ) (p : ℕ) → 0 < p → allowed_replicas whole (num c) p ≡ returned (pos (from_int c / p))
unfolding allowed_replicas true_div number
allowed_replicas-returns c p h = ground arith

fill_replicas-returns :
    (c : ℤ) (ps : Map ℕ) (updated : Map ℤ)
    → All IsPositive ps
    → (done : Map ℤ) × (fill_replicas whole (num c) ps updated ≡ returned done)
unfolding fill_replicas
fill_replicas-returns c [] updated h = (updated, refl)
fill_replicas-returns c ((d, p) ∷ ps) updated (h, hs) =
    rw (allowed_replicas-returns c p h)
      (fill_replicas-returns c ps (insert d (pos (from_int c / p)) updated) hs)

calculated-returns :
    (strategy : PowerCappingStrategy) (current : Map Json) (c : ℤ) (ps : Map ℕ)
    → All IsPositive ps
    → (done : Map ℤ) × (calculate_max_replicas whole strategy current ps (num c) ≡ returned done)
unfolding calculate_max_replicas
calculated-returns maximize_replicas current c ps h = fill_replicas-returns c ps [] h
calculated-returns prioritize_high_replica current c ps h = fill_replicas-returns c ps [] h

updated_replicas-returns :
    (cluster : Cluster) (strategy : PowerCappingStrategy) (c : ℤ) (usage : Usage ℕ)
    → All IsPositive usage.power_consumptions
    → (done : Map ℤ) × (updated_replicas whole cluster strategy (num c) usage ≡ returned done)
unfolding updated_replicas
updated_replicas-returns cluster strategy c usage h =
    let (done, fine) =
      calculated-returns strategy usage.current_replicas c usage.power_consumptions h in
    elim (Bool-cases (ltb 0 (add_values whole cluster 0 usage.power_consumptions))) [
      | inl busy ↦ (done, rw busy fine)
      | inr idle ↦ ([], rw idle refl)
    ]

spec-returns :
    (m : ℤ) (fs : Fields) (spec : Json) (d : String)
    → find "spec" fs ≡ some spec
    → deployment_name (obj fs) ≡ returned d
    → (body : Json) × (with_max_replicas m (obj fs) ≡ returned body)
unfolding with_max_replicas deployment_name item
spec-returns m fs (obj inner) d there e =
    (obj (set_field "spec" (obj (set_field "maxReplicaCount" (num m) inner)) fs), rw there refl)
spec-returns m fs spec d there e = let h = rw there at e in absurd (cc)

-- An object that names its deployment has a place for the limit.
with_max_replicas-returns :
    (m : ℤ) (o : Json) (d : String)
    → deployment_name o ≡ returned d
    → (body : Json) × (with_max_replicas m o ≡ returned body)
unfolding with_max_replicas deployment_name item
with_max_replicas-returns m (obj fs) d e = elim (Option-cases (find "spec" fs)) [
  | inl missing ↦ let h = rw missing at e in absurd (cc)
  | inr (spec, there) ↦ spec-returns m fs spec d there (unfold deployment_name item in e)
]
with_max_replicas-returns m o d e = absurd (cc)

module _ (cluster : Cluster) where
  -- The number of replicas of the deployment is a number.
  abbrev pub HasReplicas : Map Json → String × ℕ → Type 0
  HasReplicas current (d, power) = (count : ℕ) × (float whole (get null d current) ≡ returned count)

  report_each-returns :
      (updated : Map ℤ) (current : Map Json) (ps forecast : Map ℕ)
      → All (HasReplicas current) ps
      → (last : Map ℕ) × ((report_each whole cluster updated current ps forecast).0 ≡ returned last)
  unfolding report_each forecast_of
  report_each-returns updated current [] forecast h = (forecast, refl)
  report_each-returns updated current ((d, p) ∷ ps) forecast ((count, e), hs) =
      let x = from_int (get (pos 1) d updated) in
      rw (e, report_each) (report_each-returns updated current ps (insert d (p * x) forecast) hs)

  -- The documented behaviour of a patch of an object that is there.
  abbrev pub PatchesExisting : Type 0
  PatchesExisting =
      (s : cluster.S) (key : ObjectKey) (o body : Json)
      → cluster.get_object s key ≡ returned o
      → (s' : cluster.S) × (cluster.patch_object s key body ≡ returned s')

  module _ (namespace : String) (updated : Map ℤ) where
    -- The reference names an object that names its deployment.
    abbrev CanScale : cluster.S → Json → Type 0
    CanScale s ref =
        (key : ObjectKey) × (d : String) × (ref_key whole cluster namespace ref ≡ returned key)
        × Scales cluster s key d

    scale_object-returns :
        (s : cluster.S) (ref : Json) (key : ObjectKey) (d : String) (o : Json)
        → ref_key whole cluster namespace ref ≡ returned key
        → cluster.get_object s key ≡ returned o
        → deployment_name o ≡ returned d
        → (body : Json) × (scale_object whole cluster namespace updated s ref
            ≡ returned (key, body))
    unfolding scale_object scaled_object_of
    scale_object-returns s ref key d o named there scales =
        let (body, made) = with_max_replicas-returns (get (pos 1) d updated) o d scales in
        (body, rw (named, there, scales, made) refl)

    patch_one-returns :
        PatchesExisting
        → (s : cluster.S) (ref : Json) → CanScale s ref
        → (s' : cluster.S) × (patch_one whole cluster
              (scale_object whole cluster namespace updated)
              s
              ref
            ≡ returned s')
    patch_one-returns patches s ref (key, d, named, (o, there, scales)) =
        let (body, prepared) = scale_object-returns s ref key d o named there scales in
        let (s', done) = patches s key o body there in (s', rw (prepared, done) refl)

    still :
        (laws : PatchLaws cluster) (s s' : cluster.S) (ref : Json) (refs : List Json)
        → patch_one whole cluster (scale_object whole cluster namespace updated) s ref ≡ returned s'
        → All (CanScale s) refs
        → All (CanScale s') refs
    still laws s s' ref [] e h = tt
    still laws s s' ref (r ∷ refs) e ((key, d, named, scales), hs) = (
      (
        key,
        d,
        named,
        Patched-keeps-Scales whole cluster namespace updated laws s s' ref
            (patch_one-Patched whole cluster namespace updated s s' ref e) key d scales,
      ),
      still laws s s' ref refs e hs,
    )

    patch_each-returns :
        (laws : PatchLaws cluster)
        → PatchesExisting
        → (refs : List Json) (s : cluster.S) → All (CanScale s) refs
        → (s' : cluster.S) × (patch_each whole cluster
              (scale_object whole cluster namespace updated)
              refs
              s
            ≡ (none, s'))
    unfolding patch_each
    patch_each-returns laws patches [] s h = (s, refl)
    patch_each-returns laws patches (ref ∷ refs) s (h, hs) =
        let (mid, one) = patch_one-returns patches s ref h in
        rw (one, patch_each)
          (patch_each-returns laws patches refs mid (still laws s mid ref refs one hs))

  report-returns :
      (usage : Usage ℕ) (updated : Map ℤ) (s : cluster.S) (i : ℤ)
      → All (HasReplicas usage.current_replicas) usage.power_consumptions
      → (status : Status ℕ) × ((report whole cluster usage updated s (number whole (num i))).outcome
          ≡ returned status)
  unfolding report number
  report-returns usage updated s i h =
      let (last, fine) =
        report_each-returns updated usage.current_replicas usage.power_consumptions [] h in
      (status_of whole cluster usage last, rw (fine, report) refl)

  module _ (strategy : PowerCappingStrategy) (namespace : String) where
    read-CanScale :
        (updated : Map ℤ) (s : cluster.S) (powers : Map ℕ) (refs : List Json)
        → All (IsRead whole cluster namespace s powers) refs
        → All (CanScale namespace updated s) refs
    read-CanScale updated s powers [] h = tt
    read-CanScale updated s powers (ref ∷ refs) (r, rs) =
        ((r.key, r.deployment, r.named, r.scales), read-CanScale updated s powers refs rs)

    pub monitor_power_usage-returns :
        (laws : PatchLaws cluster)
        → PatchesExisting
        → (c : ℤ) (spec : Fields) (s : cluster.S) (refs : List Json) (usage : Usage ℕ)
        → get_or null "powerCapLimit" spec ≡ num c
        → elements (get_or (arr nil) "scaledObjectRefs" spec) ≡ returned refs
        → read_all whole cluster namespace s refs (no_usage whole cluster) ≡ returned usage
        → All IsPositive usage.power_consumptions
        → All (HasReplicas usage.current_replicas) usage.power_consumptions
        → (status : Status ℕ) × ((monitor_power_usage whole cluster strategy namespace spec
              s).outcome
            ≡ returned status)
    unfolding monitor_power_usage
    monitor_power_usage-returns laws patches c spec s refs usage cap some_refs read positive
          counts =
        let (updated, fine) = updated_replicas-returns cluster strategy c usage positive in
        let (distinct, all_read) =
          read_all-IsRead whole cluster namespace s refs (no_usage whole cluster) usage read tt in
        let (s', done) =
          patch_each-returns namespace updated laws patches refs s
            (read-CanScale updated s usage.power_consumptions refs all_read) in
        rw (cap, some_refs, read, fine, done)
          (report-returns usage updated s' (pos (length refs)) counts)
