-- ===== src/Controller/Pods/Selection.antt =====
-- Which pods `handlePodAdd` watches, and what of their configuration it uses.
use mathlib.Core.Option.{some-injective}
use climatik_project.Prelude.{
  String, ◌≡◌, refl, ap, ◌≢◌, ◌↔◌, ◌∙◌, none, some, arith, subst, eq_iff, ==-eq-false, ◌==◌,
  if◌then◌else◌,
}
use climatik_project.Prelude.Int.{ℤ}
use climatik_project.Go.Map.{get}
use climatik_project.Go.Duration.{seconds}
use climatik_project.Api.{
  PowerCappingConfig, PowerCappingConfigSpec, PowerCappingSpec, RelativePowerCapInPercentageSpec,
  relative_of_peak,
}
use climatik_project.Controller.Cluster.{Pod, Cluster, Answer, found, not_found, failed}
use climatik_project.Controller.Pods.{
  Object, pod, other, WatchJob, label_key, new_job, on_answer, handle_pod_add,
}

abbrev pub label_of : Pod → String
label_of p = get "" label_key p.labels

-- The pod names a configuration by its label, it is found in the pod's namespace, and its kind is
-- the cap relative to the peak.
pub record IsSelected (cluster : Cluster) (object : Object) (job : WatchJob) : Type 0 where
  pub config : PowerCappingConfig
  pub is_pod : object ≡ pod job.pod
  pub same_label : job.power_cap_label ≡ label_of job.pod
  pub labelled : label_of job.pod ≢ ""
  pub named : cluster job.pod.namespace (label_of job.pod) ≡ found config
  pub kind : config.spec.power_capping_spec.kind ≡ relative_of_peak
  pub window : job.duration ≡ seconds config.spec.power_capping_spec.relative.sample_window

new_job-IsSelected :
    (cluster : Cluster) (p : Pod) (config : PowerCappingConfig)
    → label_of p ≢ ""
    → cluster p.namespace (label_of p) ≡ found config
    → config.spec.power_capping_spec.kind ≡ relative_of_peak
    → IsSelected cluster (pod p) (new_job p (label_of p) config)
new_job-IsSelected cluster p config labelled named kind = record {
  config = config;
  is_pod = refl;
  same_label = refl;
  labelled = labelled;
  named = named;
  kind = kind;
  window = refl;
}

on_answer_sound :
    (p : Pod) (label : String) (a : Answer) (job : WatchJob)
    → on_answer p label a ≡ some job
    → (config : PowerCappingConfig) × (a ≡ found config)
      × (config.spec.power_capping_spec.kind ≡ relative_of_peak)
      × (some (new_job p label config) ≡ some job)
unfolding on_answer
on_answer_sound p label (found config) job e =
    let kind = eq_iff config.spec.power_capping_spec.kind relative_of_peak in
    (config, refl, ground (arith, kind), ground (arith, kind))
on_answer_sound p label (not_found x) job e = cc
on_answer_sound p label (failed x) job e = cc

select_sound :
    (cluster : Cluster) (object : Object) (job : WatchJob)
    → handle_pod_add cluster object ≡ some job
    → IsSelected cluster object job
unfolding handle_pod_add
select_sound cluster other job e = cc
select_sound cluster (pod p) job e =
    let labelled : label_of p ≢ "" = ground (arith, eq_iff (label_of p) "") in
    let answered : on_answer p (label_of p) (cluster p.namespace (label_of p)) ≡ some job =
      ground (arith, eq_iff (label_of p) "") in
    let (config, named, kind, same) = on_answer_sound p (label_of p) _ job answered in
    subst (IsSelected cluster (pod p)) (some-injective (new_job p (label_of p) config) job same)
      (new_job-IsSelected cluster p config labelled named kind)

handle_pod_add_of :
    (cluster : Cluster) (p : Pod) (config : PowerCappingConfig)
    → label_of p ≢ ""
    → cluster p.namespace (label_of p) ≡ found config
    → config.spec.power_capping_spec.kind ≡ relative_of_peak
    → handle_pod_add cluster (pod p) ≡ some (new_job p (label_of p) config)
unfolding handle_pod_add
handle_pod_add_of cluster p config labelled named kind =
    rw (==-eq-false (label_of p) "" labelled, named) (unfold on_answer in rw kind)

select_complete :
    (cluster : Cluster) (object : Object) (job : WatchJob)
    → IsSelected cluster object job
    → handle_pod_add cluster object ≡ some job
select_complete cluster object job h =
    rw h.is_pod (
      handle_pod_add_of cluster job.pod h.config h.labelled h.named h.kind ∙ ap some (ground arith))

-- `handlePodAdd` starts a watch exactly for such objects: with the pod itself, its label, and the
-- sample window of the configuration.
pub handle_pod_add_iff :
    (cluster : Cluster) (object : Object) (job : WatchJob)
    → (handle_pod_add cluster object ≡ some job) ↔ IsSelected cluster object job
handle_pod_add_iff cluster object job =
    (select_sound cluster object job, select_complete cluster object job)

-- The same configurations with another `powerCapPercentage`.
abbrev pub with_percentage : (String → ℤ) → Answer → Answer
with_percentage percentage (found config) =
    let old : PowerCappingConfigSpec = config.spec in
    let caps : PowerCappingSpec = old.power_capping_spec in
    let relative : RelativePowerCapInPercentageSpec = caps.relative in
    found (record config {
      spec = record old {
        power_capping_spec = record caps {
          relative = record relative { power_cap_percentage = percentage config.name };
        };
      };
    })
with_percentage percentage (not_found e) = not_found e
with_percentage percentage (failed e) = failed e

on_answer-with_percentage :
    (p : Pod) (label : String) (percentage : String → ℤ) (a : Answer)
    → on_answer p label (with_percentage percentage a) ≡ on_answer p label a
unfolding on_answer
on_answer-with_percentage p label percentage (found config) = refl
on_answer-with_percentage p label percentage (not_found e) = refl
on_answer-with_percentage p label percentage (failed e) = refl

-- The percentage that a configuration sets is never used: whatever percentage each configuration
-- of the cluster carries, the same pods are watched with the same label and window, and nothing
-- else of the configuration reaches the goroutine that computes the cap.
pub handle_pod_add-ignores_percentage :
    (cluster : Cluster) (percentage : String → ℤ) (object : Object)
    → handle_pod_add (λ namespace name. with_percentage percentage (cluster namespace name)) object
      ≡ handle_pod_add cluster object
unfolding handle_pod_add
handle_pod_add-ignores_percentage cluster percentage other = refl
handle_pod_add-ignores_percentage cluster percentage (pod p) =
    ap (λ r. if label_of p == "" then none else r)
      (on_answer-with_percentage p (label_of p) percentage (cluster p.namespace (label_of p)))
