-- ===== src/Operator/Examples.antt =====
-- The theorems on the operator, at a cluster with two scaled objects.
use climatik_project.Prelude.{
  List, ◌≢◌, String, ℕ, ◌<◌, none, some, Option-cases, true, [], ◌∷◌, ◌≡◌, refl, All, arith, inr,
  inl,
}
use climatik_project.Go.Json.{Fields, null, arr, nil, num, obj}
use climatik_project.Operator.Python.{Exception, returned, raised, elements, get_or}
use climatik_project.Operator.Python.{find, item, to_list, permanent_error}
use climatik_project.Operator.Cluster.{
  Cluster, object_key, deployment_name, get_power_consumption, power_of, power_query, second,
  with_max_replicas, patch_each,
}
use climatik_project.Go.FilePath.{split_slash}
use climatik_project.Go.Json.{set_field}
use climatik_project.Go.Map.{lookup}
use climatik_project.Operator.Number.{float, number, true_div}
use climatik_project.Operator.Strategy.{calculate_max_replicas, allowed_replicas}
use climatik_project.Operator.Create.{Validate, create_power_capping_config}
use climatik_project.Operator.Create.Rejected.{
  ChecksRequired, required_keys, helm_crd, spec_properties, create_power_capping_config-rejects,
}
use Prim.Native.String.{◌++◌}
use climatik_project.Prelude.Int.{pos}
use climatik_project.Go.Map.{insert, get}
use climatik_project.Go.Text.{atoi_value}
use climatik_project.Go.Result.{Failure}
use climatik_project.Operator.Number.Whole.{whole}
use climatik_project.Operator.Strategy.{maximize_replicas}
use climatik_project.Operator.Monitor.{
  Usage, Status, scaled_object_of, no_usage, read_all, add_values, monitor_power_usage,
}
use climatik_project.Operator.Monitor.Idle.{monitor_power_usage-HasIdle}
use climatik_project.Operator.Monitor.Stopped.{IsPrefixDone, monitor_power_usage-IsPrefixDone}
use climatik_project.Operator.Monitor.Limits.{IsLimited, monitor_power_usage-IsLimited}
use climatik_project.Operator.Monitor.Returns.{HasReplicas}
use climatik_project.Operator.Monitor.Exceeded.{monitor_power_usage-exceeds}
use climatik_project.Operator.Fixtures.{
  store_get, store_patch, same_key, keep, keep-DropsUnknown, refusing_cluster,
  patch_but_b-PatchLaws, cluster_with, two_objects, refs_to_both, both_limited,
  store_patch-PatchLaws, store_patch-PatchesExisting,
}

-- 60 and 80, and 60 and nothing.
abbrev usage_of : ℕ → Usage ℕ
usage_of second_power = record {
  current_replicas = ("a", num (pos 2)) ∷ ("b", num (pos 2)) ∷ [];
  power_consumptions = ("a", 60) ∷ ("b", second_power) ∷ [];
}

abbrev both_busy : Cluster
both_busy = cluster_with "60" "80"

abbrev one_idle : Cluster
one_idle = cluster_with "60" "0"

both_read :
    read_all whole both_busy "default" two_objects refs_to_both (no_usage whole both_busy)
    ≡ returned (usage_of 80)
unfolding read_all insert atoi_value scaled_object_of item find object_key split_slash store_get
    same_key deployment_name get_power_consumption power_of power_query elements second to_list
    float
both_read = refl

idle_read :
    read_all whole one_idle "default" two_objects refs_to_both (no_usage whole one_idle)
    ≡ returned (usage_of 0)
unfolding read_all insert atoi_value scaled_object_of item find object_key split_slash store_get
    same_key deployment_name get_power_consumption power_of power_query elements second to_list
    float
idle_read = refl

both_referred : elements (get_or (arr nil) "scaledObjectRefs" both_limited) ≡ returned refs_to_both
unfolding elements get_or find to_list
both_referred = refl

limit_is_100 : get_or null "powerCapLimit" both_limited ≡ num (pos 100)
unfolding get_or find
limit_is_100 = refl

both_counted :
    All (HasReplicas both_busy (usage_of 80).current_replicas) (usage_of 80).power_consumptions
unfolding float number get lookup
both_counted = ((2, refl), ((2, refl), tt))

-- Each may have one replica, and both together are above the limit.
abbrev both_status : Status ℕ
both_status = record { current_power_consumption = 140; forecast_power_consumption = 140 }

both_run :
    (monitor_power_usage whole both_busy maximize_replicas "default" both_limited
      two_objects).outcome
    ≡ returned both_status
unfolding monitor_power_usage insert atoi_value get get_or with_max_replicas set_field store_patch
    patch_each calculate_max_replicas true_div allowed_replicas lookup number scaled_object_of item
    find object_key split_slash store_get same_key deployment_name get_power_consumption power_of
    power_query elements second to_list float
both_run = refl

powers_above_0 :
    whole.gt (add_values whole one_idle whole.zero (usage_of 0).power_consumptions) whole.zero
    ≡ true
unfolding add_values
powers_above_0 = refl

monitor_power_usage-HasIdle_example :
    (e : Exception) × (monitor_power_usage whole one_idle maximize_replicas "default" both_limited
        two_objects
      ≡ record { outcome = raised e; cluster = two_objects; settings = [] })
monitor_power_usage-HasIdle_example =
    monitor_power_usage-HasIdle whole one_idle maximize_replicas "default" both_limited two_objects
      refs_to_both (usage_of 0) both_referred idle_read powers_above_0 (inr (inl refl))

monitor_power_usage-IsLimited_example :
    All
      (IsLimited whole both_busy maximize_replicas "default"
        (get_or null "powerCapLimit" both_limited)
        (usage_of 80)
        (monitor_power_usage whole both_busy maximize_replicas "default" both_limited
          two_objects).cluster)
      refs_to_both
monitor_power_usage-IsLimited_example =
    monitor_power_usage-IsLimited whole both_busy maximize_replicas "default"
      (store_patch-PatchLaws "60" "80") both_limited two_objects refs_to_both (usage_of 80)
      both_status both_referred both_read both_run

monitor_power_usage-exceeds_example :
    (status : Status ℕ) × ((monitor_power_usage whole both_busy maximize_replicas "default"
        both_limited two_objects).outcome
      ≡ returned status)
    × (100 < status.forecast_power_consumption)
monitor_power_usage-exceeds_example =
    monitor_power_usage-exceeds both_busy maximize_replicas "default"
      (store_patch-PatchLaws "60" "80") (store_patch-PatchesExisting "60" "80") 100 both_limited
      two_objects refs_to_both (usage_of 80) limit_is_100 both_referred both_read both_counted
      (omega arith) ((omega arith, omega arith), ((omega arith, omega arith), tt))

-- A validation that looks for the required keys alone.
abbrev missing_key : List String → Fields → Failure
missing_key [] fs = none
missing_key (k ∷ ks) fs = elim (find k fs) [
  | none ↦ some (k ++ " is a required property")
  | some v ↦ missing_key ks fs
]

abbrev check_required : Validate
check_required (obj fs) (obj schema) = missing_key (required_keys schema) fs
check_required _ schema = some "not an object"

missing_key-eq-none :
    (ks : List String) (fs : Fields) → missing_key ks fs ≡ none → All (λ k. find k fs ≢ none) ks
missing_key-eq-none [] fs h = tt
missing_key-eq-none (k ∷ ks) fs h = elim (Option-cases (find k fs)) [
  | inl missing ↦ let e = rw (missing, missing_key) at h in absurd (cc)
  | inr (v, there) ↦
      ((λ missing. absurd (cc)), missing_key-eq-none ks fs (rw (there, missing_key) at h))
]

check_required-ChecksRequired : ChecksRequired check_required
check_required-ChecksRequired fs schema valid = missing_key-eq-none (required_keys schema) fs valid

create_power_capping_config-rejects_example :
    (message : String) × (create_power_capping_config whole both_busy check_required "default"
        (keep (spec_properties helm_crd) both_limited)
        two_objects
      ≡ (some (permanent_error ("Invalid PowerCappingConfig spec: " ++ message)), two_objects))
create_power_capping_config-rejects_example =
    create_power_capping_config-rejects keep keep-DropsUnknown check_required
      check_required-ChecksRequired whole both_busy "default" helm_crd both_limited two_objects

refusing_read :
    read_all whole refusing_cluster "default" two_objects refs_to_both
      (no_usage whole refusing_cluster)
    ≡ returned (usage_of 80)
unfolding read_all insert atoi_value scaled_object_of item find object_key split_slash store_get
    same_key deployment_name get_power_consumption power_of power_query elements second to_list
    float
refusing_read = refl

-- The second patch fails, so the run stops after the first reference.
monitor_power_usage-IsPrefixDone_example :
    IsPrefixDone whole refusing_cluster maximize_replicas "default"
      (get_or null "powerCapLimit" both_limited)
      (usage_of 80)
      refs_to_both
      two_objects
      (monitor_power_usage whole refusing_cluster maximize_replicas "default" both_limited
        two_objects).cluster
monitor_power_usage-IsPrefixDone_example =
    monitor_power_usage-IsPrefixDone whole refusing_cluster maximize_replicas "default"
      patch_but_b-PatchLaws both_limited two_objects refs_to_both (usage_of 80) both_referred
      refusing_read
