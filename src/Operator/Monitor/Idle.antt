-- ===== src/Operator/Monitor/Idle.antt =====
-- What an idle deployment does to the others.
use climatik_project.Prelude.{String, true, List, [], ◌≡◌}
use climatik_project.Go.Json.{Json, null, arr, nil, Fields}
use climatik_project.Operator.Python.{Exception, returned, raised, elements, get_or}
use climatik_project.Operator.Number.{Number}
use climatik_project.Operator.Cluster.{Cluster}
use climatik_project.Operator.Strategy.{PowerCappingStrategy}
use climatik_project.Operator.Strategy.Share.{HasIdle, calculate_max_replicas-idle}
use climatik_project.Operator.Monitor.{
  Usage, no_usage, read_all, add_values, updated_replicas, monitor_power_usage,
}

-- If the deployments consume power together and one of them consumes none, every run ends with an
-- exception, whatever the limit and the strategy: it changes no object, sets no gauge and gives no
-- status.
pub monitor_power_usage-HasIdle :
    (n : Number) (cluster : Cluster) (strategy : PowerCappingStrategy) (namespace : String)
    (spec : Fields) (s : cluster.S) (refs : List Json) (usage : Usage n.F)
    → elements (get_or (arr nil) "scaledObjectRefs" spec) ≡ returned refs
    → read_all n cluster namespace s refs (no_usage n cluster) ≡ returned usage
    → n.gt (add_values n cluster n.zero usage.power_consumptions) n.zero ≡ true
    → HasIdle n usage.power_consumptions
    → (e : Exception) × (monitor_power_usage n cluster strategy namespace spec s
        ≡ record { outcome = raised e; cluster = s; settings = [] })
unfolding monitor_power_usage updated_replicas
monitor_power_usage-HasIdle n cluster strategy namespace spec s refs usage some_refs read busy
      idle =
    let (e, bad) =
      calculate_max_replicas-idle n (get_or null "powerCapLimit" spec) strategy
        usage.current_replicas usage.power_consumptions idle in
    (e, rw (some_refs, read, busy, bad))
