-- ===== src/Controller/Informer.antt =====
-- `SetupWithManager`: the set-up of the reconciler, and the handlers that the pod informer calls.
pub mod Reports
mod Examples
use climatik_project.Prelude.{
  ℕ, zero, suc, String, Option, none, some, List, [], ◌∷◌, ◌≡◌, ◌↔◌, refl, ◌++◌, ◌==◌,
  if◌then◌else◌, Bool, true, false,
}
use climatik_project.Go.Result.{Error, Failure}
use climatik_project.Controller.Cluster.{Cluster}
use climatik_project.Controller.Pods.{Object, WatchJob, handle_pod_add, handle_pod_delete}

-- `getEnv`, for the value that the environment has, which is empty for an unset variable.
unfoldable pub get_env : String → String → String
get_env value fallback = if value == "" then fallback else value

-- What the pod informer reports.
pub data PodEvent : Type 0 where
  pod_added : Object → PodEvent
  pod_updated : Object → Object → PodEvent
  pod_deleted : Object → PodEvent

-- The three functions of the event handler.
unfoldable pub on_pod_event : Cluster → PodEvent → Option WatchJob
on_pod_event cluster (pod_added object) = handle_pod_add cluster object
on_pod_event cluster (pod_updated old_object new_object) = handle_pod_add cluster new_object
on_pod_event cluster (pod_deleted object) = handle_pod_delete object

abbrev add_job : Option WatchJob → List WatchJob → List WatchJob
add_job none jobs = jobs
add_job (some job) jobs = job ∷ jobs

-- The goroutines that the handlers start for a sequence of events, with the cluster at each.
unfoldable pub started : List (Cluster × PodEvent) → List WatchJob
unfolding on_pod_event
started [] = []
started ((cluster, event) ∷ events) = add_job (on_pod_event cluster event) (started events)

-- The libraries that the set-up calls, each with its error.
pub record ManagerEnv : Type 0 where
  pub new_for_config : Failure
  pub add_runnable : Failure
  pub wait_for_cache_sync : Bool
  -- by the address
  pub new_prometheus_client : String → Failure
  pub complete : Failure

-- What the set-up has done, in order.
pub data SetupStep : Type 0 where
  handlers_added runnable_added informer_started : SetupStep
  prometheus_client_set : String → SetupStep
  controller_registered : SetupStep

abbrev then_step :
    Failure
    → List SetupStep
    → (List SetupStep → Failure × List SetupStep)
    → Failure × List SetupStep
then_step (some e) steps rest = (some e, steps)
then_step none steps rest = rest steps

abbrev sync_failure : Bool → Failure
sync_failure true = none
sync_failure false = some "failed to wait for caches to sync"

-- The steps of the set-up in their order; the informer is started before its client exists.
unfoldable pub setup_with_manager : ManagerEnv → String → Failure × List SetupStep
setup_with_manager m prometheus_url = then_step m.new_for_config [] λ steps.
    then_step m.add_runnable (steps ++ handlers_added ∷ []) λ steps.
      then_step (sync_failure m.wait_for_cache_sync)
        (steps ++ runnable_added ∷ informer_started ∷ [])
        λ steps. then_step (m.new_prometheus_client prometheus_url) steps λ steps.
          then_step m.complete (steps ++ prometheus_client_set prometheus_url ∷ [])
            λ steps. (none, steps ++ controller_registered ∷ [])
