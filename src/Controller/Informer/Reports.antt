-- ===== src/Controller/Informer/Reports.antt =====
-- What the reports of the informer start, and when the set-up succeeds.
use climatik_project.Prelude.{
  String, refl, inl, inr, Option-cases, none, List, [], ◌∷◌, ◌≡◌, ◌↔◌, ap, arith, true, sym, subst,
}
use climatik_project.Controller.Cluster.{Cluster}
use climatik_project.Controller.Pods.{Object, WatchJob, handle_pod_add}
use climatik_project.Controller.Pods.Selection.{IsSelected, handle_pod_add_iff}
use climatik_project.Controller.Informer.{
  add_job, PodEvent, pod_added, pod_updated, on_pod_event, started, ManagerEnv, handlers_added,
  runnable_added, informer_started, prometheus_client_set, controller_registered,
  setup_with_manager,
}

-- What the informer reports of one object through its versions, each with the cluster at the time:
-- the first is added, and each later one is the new object of an update of the one before.
abbrev pub updates : Object → List (Cluster × Object) → List (Cluster × PodEvent)
updates last [] = []
updates last ((cluster, object) ∷ versions) =
    (cluster, pod_updated last object) ∷ updates object versions

abbrev pub history : Cluster → Object → List (Cluster × Object) → List (Cluster × PodEvent)
history cluster object versions = (cluster, pod_added object) ∷ updates object versions

-- The watches that the versions ask for: one for each version whose label then names a
-- configuration of its namespace with the cap relative to the peak, whether or not an earlier
-- version has a watch.
pub data Watched : List (Cluster × Object) → List WatchJob → Type 0 where
  nothing : Watched [] []
  selected :
      {cluster : Cluster} {object : Object} {versions : List (Cluster × Object)} {job : WatchJob}
      {jobs : List WatchJob}
      → IsSelected cluster object job
      → Watched versions jobs
      → Watched ((cluster, object) ∷ versions) (job ∷ jobs)
  passed :
      {cluster : Cluster} {object : Object} {versions : List (Cluster × Object)}
      {jobs : List WatchJob}
      → ((job : WatchJob) → ¬ IsSelected cluster object job)
      → Watched versions jobs
      → Watched ((cluster, object) ∷ versions) jobs

not_selected :
    (cluster : Cluster) (object : Object)
    → ((job : WatchJob) → ¬ IsSelected cluster object job)
    → handle_pod_add cluster object ≡ none
not_selected cluster object h = elim (Option-cases (handle_pod_add cluster object)) [
  | inl passed_over ↦ passed_over
  | inr (job, added) ↦ absurd (h job ((handle_pod_add_iff cluster object job).0 added))
]

started-updates :
    (last : Object) (versions : List (Cluster × Object)) (jobs : List WatchJob)
    → Watched versions jobs
    → started (updates last versions) ≡ jobs
unfolding started on_pod_event
started-updates last [] jobs nothing = refl
started-updates last ((cluster, object) ∷ versions) jobs (selected {job = job} {jobs = rest} h w) =
    rw ((handle_pod_add_iff cluster object job).1 h)
      (ap (◌∷◌ job) (started-updates object versions rest w))
started-updates last ((cluster, object) ∷ versions) jobs (passed h w) =
    rw (not_selected cluster object h) (started-updates object versions jobs w)

Watched-started :
    (cluster : Cluster) (object : Object) (versions : List (Cluster × Object))
    (jobs : List WatchJob)
    → Watched ((cluster, object) ∷ versions) jobs
    → started (history cluster object versions) ≡ jobs
unfolding started on_pod_event
Watched-started cluster object versions jobs (selected {job = job} {jobs = rest} h w) =
    rw ((handle_pod_add_iff cluster object job).1 h)
      (ap (◌∷◌ job) (started-updates object versions rest w))
Watched-started cluster object versions jobs (passed h w) =
    rw (not_selected cluster object h) (started-updates object versions jobs w)

-- A version asks for what its addition would start.
Watched-handle_pod_add :
    (cluster : Cluster) (object : Object) (versions : List (Cluster × Object))
    (jobs : List WatchJob)
    → Watched versions jobs
    → Watched ((cluster, object) ∷ versions) (add_job (handle_pod_add cluster object) jobs)
Watched-handle_pod_add cluster object versions jobs w =
    elim (Option-cases (handle_pod_add cluster object)) [
      | inl e ↦
          subst (λ o. Watched ((cluster, object) ∷ versions) (add_job o jobs)) (sym e)
            (passed
              (λ job h. let added = (handle_pod_add_iff cluster object job).1 h in absurd (cc)) w)
      | inr (job, e) ↦
          subst (λ o. Watched ((cluster, object) ∷ versions) (add_job o jobs)) (sym e)
            (selected ((handle_pod_add_iff cluster object job).0 e) w)
    ]

updates-Watched :
    (last : Object) (versions : List (Cluster × Object))
    → Watched versions (started (updates last versions))
unfolding started on_pod_event
updates-Watched last [] = nothing
updates-Watched last ((cluster, object) ∷ versions) =
    Watched-handle_pod_add cluster object versions _ (updates-Watched object versions)

history-Watched :
    (cluster : Cluster) (object : Object) (versions : List (Cluster × Object))
    → Watched ((cluster, object) ∷ versions) (started (history cluster object versions))
unfolding started on_pod_event
history-Watched cluster object versions =
    Watched-handle_pod_add cluster object versions _ (updates-Watched object versions)

-- For an object that is added and then updated through any versions, the watches that the handlers
-- start are exactly those that its versions ask for, in order: each by the new version and the
-- cluster at its report, and one for every version that is selected, also if nothing has changed.
pub started-history :
    (cluster : Cluster) (object : Object) (versions : List (Cluster × Object))
    (jobs : List WatchJob)
    → (started (history cluster object versions) ≡ jobs)
      ↔ Watched ((cluster, object) ∷ versions) jobs
started-history cluster object versions jobs = (
  λ e. subst (Watched ((cluster, object) ∷ versions)) e (history-Watched cluster object versions),
  Watched-started cluster object versions jobs,
)

-- Every library call of the set-up succeeds.
abbrev pub AllSucceed : ManagerEnv → String → Type 0
AllSucceed m url =
    (m.new_for_config ≡ none)
    × (m.add_runnable ≡ none)
    × (m.wait_for_cache_sync ≡ true)
    × (m.new_prometheus_client url ≡ none)
    × (m.complete ≡ none)

setup-succeeds :
    (m : ManagerEnv) (url : String) → (setup_with_manager m url).0 ≡ none → AllSucceed m url
unfolding setup_with_manager
setup-succeeds m url e = ground arith

-- `SetupWithManager` returns nil exactly when each of its five library calls succeeds, and then
-- every step was done: the informer with its handlers was started, then the Prometheus client was
-- set, and last the controller was registered.
pub setup_with_manager_iff :
    (m : ManagerEnv) (url : String)
    → (((setup_with_manager m url).0 ≡ none) ↔ AllSucceed m url)
      × (AllSucceed m url
          → (setup_with_manager m url).1
            ≡ handlers_added
              ∷ runnable_added
              ∷ informer_started
              ∷ prometheus_client_set url
              ∷ controller_registered
              ∷ [])
unfolding setup_with_manager
setup_with_manager_iff m url = (
  (
    setup-succeeds m url,
    λ (config, runnable, synced, client, complete). rw (config, runnable, synced, client, complete),
  ),
  λ (config, runnable, synced, client, complete). rw (config, runnable, synced, client, complete),
)
