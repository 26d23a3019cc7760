-- ===== src/Operator/Monitor.antt =====
-- python/climatik_operator/operator.py: `monitor_power_usage`, which runs every ten seconds.
pub mod Idle
pub mod Objects
pub mod Rounds
pub mod Readings
pub mod Scaled
pub mod Limits
pub mod Stopped
pub mod Returns
pub mod Forecasts
pub mod Exceeded
use climatik_project.Prelude.{
  String, Option, none, some, List, [], ◌∷◌, ◌++◌, map, length, if◌then◌else◌,
}
use climatik_project.Prelude.Int.{ℤ, pos}
use climatik_project.Go.Map.{Map, get, insert}
use climatik_project.Go.Json.{Json, null, num, arr, nil, Fields}
use climatik_project.Operator.Python.{
  Exception, Outcome, returned, raised, ◌>>=◌, get_or, item, elements,
}
use climatik_project.Operator.Number.{Number, or_overflow, number, float}
use climatik_project.Operator.Cluster.{
  ObjectKey, Cluster, object_key, deployment_name, with_max_replicas, patch_one, patch_each,
  get_power_consumption,
}
use climatik_project.Operator.Strategy.{PowerCappingStrategy, calculate_max_replicas}
use climatik_project.Operator.Gauges.{
  Gauge, Setting, scaled_objects, replicas, power_consumption, forecast_power_consumption,
}

-- The dictionaries of the first loop, by the names of the deployments.
pub record Usage (F : Type 0) : Type 0 where
  pub current_replicas : Map Json
  pub power_consumptions : Map F

pub record Status (F : Type 0) : Type 0 where
  pub current_power_consumption : F
  pub forecast_power_consumption : F

-- What a run leaves: the exception that ended it or the status, the cluster, and the gauges set.
pub record Monitored (F S : Type 0) : Type 0 where
  pub outcome : Outcome (Status F)
  pub cluster : S
  pub settings : List (Setting F)

module _ (n : Number) (cluster : Cluster) where
  -- The object that a reference names, by subscripts.
  unfoldable pub ref_key : String → Json → Outcome ObjectKey
  ref_key namespace scale_object_ref = do
    api_version ← item "apiVersion" scale_object_ref
    kind ← item "kind" scale_object_ref
    metadata ← item "metadata" scale_object_ref
    name ← item "name" metadata
    object_key n cluster namespace api_version kind name

  unfoldable pub scaled_object_of : String → cluster.S → Json → Outcome (ObjectKey × Json)
  unfolding ref_key
  scaled_object_of namespace s scale_object_ref = do
    key ← ref_key namespace scale_object_ref
    scaled_object ← cluster.get_object s key
    returned (key, scaled_object)

  -- One round of the first loop.
  unfoldable pub read_usage : String → cluster.S → Json → Usage n.F → Outcome (Usage n.F)
  read_usage namespace s scale_object_ref usage = do
    found ← scaled_object_of namespace s scale_object_ref
    deployment ← deployment_name found.1
    current ← cluster.read_replicas s namespace deployment
    power ← get_power_consumption n cluster s deployment namespace
    returned (record {
      current_replicas = insert deployment current usage.current_replicas;
      power_consumptions = insert deployment power usage.power_consumptions;
    })

  unfoldable pub read_all : String → cluster.S → List Json → Usage n.F → Outcome (Usage n.F)
  unfolding read_usage
  read_all namespace s [] usage = returned usage
  read_all namespace s (scale_object_ref ∷ refs) usage = do
    usage' ← read_usage namespace s scale_object_ref usage
    read_all namespace s refs usage'

  abbrev pub no_usage : Usage n.F
  no_usage = record { current_replicas = []; power_consumptions = [] }

  -- `sum(values)`, from the left.
  unfoldable pub add_values : n.F → Map n.F → n.F
  add_values total [] = total
  add_values total ((name, value) ∷ rest) = add_values (n.add total value) rest

  -- The strategy, if any power is consumed; otherwise nothing is calculated.
  unfoldable pub updated_replicas : PowerCappingStrategy → Json → Usage n.F → Outcome (Map ℤ)
  unfolding add_values
  updated_replicas strategy power_cap_limit usage =
      if n.gt (add_values n.zero usage.power_consumptions) n.zero
      then calculate_max_replicas n strategy usage.current_replicas usage.power_consumptions
          power_cap_limit
      else returned []

  -- One round of the second loop, up to the patch.
  unfoldable pub scale_object : String → Map ℤ → cluster.S → Json → Outcome (ObjectKey × Json)
  unfolding scaled_object_of
  scale_object namespace updated s scale_object_ref = do
    found ← scaled_object_of namespace s scale_object_ref
    deployment ← deployment_name found.1
    body ← with_max_replicas (get (pos 1) deployment updated) found.1
    returned (found.0, body)

  abbrev set_for : Gauge → String → n.F → Setting n.F
  set_for gauge deployment value = record {
    gauge = gauge;
    deployment = some deployment;
    value = value;
  }

  -- The power times the new number of replicas.
  unfoldable pub forecast_of : Map ℤ → String → n.F → Outcome n.F
  forecast_of updated deployment power = do
    count ← or_overflow n (n.of_int (get (pos 1) deployment updated))
    returned (n.mul power count)

  abbrev after_replicas : Map ℤ → String → n.F → Outcome n.F → Outcome n.F × List (Setting n.F)
  after_replicas updated deployment power (raised e) = (raised e, [])
  after_replicas updated deployment power (returned count) = (
    forecast_of updated deployment power,
    set_for replicas deployment count ∷ set_for power_consumption deployment power ∷ [],
  )

  -- The third loop: the gauges of each deployment, and its forecast.
  unfoldable pub report_each :
      Map ℤ → Map Json → Map n.F → Map n.F → Outcome (Map n.F) × List (Setting n.F)
  unfolding forecast_of
  report_each updated current [] forecast = (returned forecast, [])
  report_each updated current ((deployment, power) ∷ rest) forecast =
      let (r, settings) =
        after_replicas updated deployment power (float n (get null deployment current)) in
      elim r [
        | raised e ↦ (raised e, settings)
        | returned x ↦
            let (final, later) = report_each updated current rest (insert deployment x forecast) in
            (final, settings ++ later)
      ]

  -- The fourth loop.
  abbrev forecast_settings : Map n.F → List (Setting n.F)
  forecast_settings forecast =
      map (λ (entry : String × n.F). set_for forecast_power_consumption entry.0 entry.1) forecast

  abbrev pub status_of : Usage n.F → Map n.F → Status n.F
  status_of usage forecast = record {
    current_power_consumption = add_values n.zero usage.power_consumptions;
    forecast_power_consumption = add_values n.zero forecast;
  }

  abbrev pub ended : Outcome (Status n.F) → cluster.S → List (Setting n.F) → Monitored n.F cluster.S
  ended r s settings = record { outcome = r; cluster = s; settings = settings }

  -- The status, from the outcome of the third loop.
  abbrev pub finish :
      Usage n.F → cluster.S → List (Setting n.F) → Outcome (Map n.F) → Monitored n.F cluster.S
  finish usage s settings (raised e) = ended (raised e) s settings
  finish usage s settings (returned forecast) =
      ended (returned (status_of usage forecast)) s (settings ++ forecast_settings forecast)

  -- All that follows the patches.
  unfoldable pub report : Usage n.F → Map ℤ → cluster.S → Outcome n.F → Monitored n.F cluster.S
  unfolding report_each add_values
  report usage updated s (raised e) = ended (raised e) s []
  report usage updated s (returned count) =
      let (r, settings) = report_each updated usage.current_replicas usage.power_consumptions [] in
      finish usage s
        (record { gauge = scaled_objects; deployment = none; value = count } ∷ settings) r

  abbrev pub after_patches :
      Usage n.F → Map ℤ → List Json → Option Exception × cluster.S → Monitored n.F cluster.S
  after_patches usage updated refs (some e, s) = ended (raised e) s []
  after_patches usage updated refs (none, s) =
      report usage updated s (number n (num (pos (length refs))))

  abbrev pub with_updated :
      String → List Json → cluster.S → Usage n.F → Outcome (Map ℤ) → Monitored n.F cluster.S
  with_updated namespace refs s usage (raised e) = ended (raised e) s []
  with_updated namespace refs s usage (returned updated) =
      after_patches usage updated refs
        (patch_each n cluster (scale_object namespace updated) refs s)

  abbrev pub with_usage :
      PowerCappingStrategy
      → Json
      → String
      → List Json
      → cluster.S
      → Outcome (Usage n.F)
      → Monitored n.F cluster.S
  with_usage strategy power_cap_limit namespace refs s (raised e) = ended (raised e) s []
  with_usage strategy power_cap_limit namespace refs s (returned usage) =
      with_updated namespace refs s usage (updated_replicas strategy power_cap_limit usage)

  abbrev pub with_refs :
      PowerCappingStrategy
      → Json
      → String
      → cluster.S
      → Outcome (List Json)
      → Monitored n.F cluster.S
  with_refs strategy power_cap_limit namespace s (raised e) = ended (raised e) s []
  with_refs strategy power_cap_limit namespace s (returned refs) =
      with_usage strategy power_cap_limit namespace refs s (read_all namespace s refs no_usage)

  unfoldable pub monitor_power_usage :
      PowerCappingStrategy → String → Fields → cluster.S → Monitored n.F cluster.S
  unfolding read_all updated_replicas scale_object report
  monitor_power_usage strategy namespace spec s =
      with_refs strategy (get_or null "powerCapLimit" spec) namespace s
        (elements (get_or (arr nil) "scaledObjectRefs" spec))
