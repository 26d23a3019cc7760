-- ===== src/Webhook/Runners.antt =====
-- internal/webhook/runners: the Ansible and the Kubernetes runner, and their factory.
pub mod Job
use Prim.Native.String.{◌++◌}
use climatik_project.Prelude.{String, Option, none, some, List, [], ◌∷◌, ◌==◌, if◌then◌else◌}
use climatik_project.Go.Result.{Error, Result, ok, err, Call, ret, panic, Failure}
use climatik_project.Go.Text.{concat}

pub record JobConfig : Type 0 where
  pub job_name : String
  pub namespace : String
  pub percentage : String

pub data Runner : Type 0 where
  ansible : String → Runner
  kubernetes : String → Runner

-- What a runner did outside the process, in the order in which it was done.
pub data Action (Job : Type 0) : Type 0 where
  execute : String → List String → Action Job
  delete_job : String → String → Action Job
  create_job : String → Job → Action Job

-- What the runners call: a process with its combined output, the cluster's configuration and its
-- client, the file system, the template and YAML libraries, and the Jobs API.
pub record RunnerEnv : Type 1 where
  pub Job : Type 0
  pub Template : Type 0
  pub job_name : Job → String
  pub job_namespace : Job → String
  pub combined_output : String → List String → String × Failure
  pub in_cluster_config : Failure
  pub new_for_config : Failure
  pub read_file : String → Result String
  pub parse_template : String → Result Template
  pub execute_template : Template → JobConfig → Result String
  pub decode_job : String → Result Job
  pub delete_job : String → String → Failure
  pub create_job : String → Job → Failure

-- `RunnerFactory.GetRunner`
unfoldable pub get_runner : String → String → Result Runner
get_runner runner_type path =
    if runner_type == "ansible"
    then ok (ansible path)
    else if runner_type == "kubernetes"
    then ok (kubernetes path)
    else err ("unknown runner type: " ++ runner_type)

module _ (env : RunnerEnv) where
  abbrev pub Run : Type 0
  Run = Call Failure × List (Action env.Job)

  abbrev ansible_result : String × Failure → Failure
  ansible_result (output, none) = none
  ansible_result (output, some e) =
      some (concat ("failed to run ansible-playbook: " ∷ e ∷ ", output: " ∷ output ∷ []))

  unfoldable pub run_ansible : String → Run
  run_ansible playbook_path = (
    ret (ansible_result (env.combined_output "ansible-playbook" (playbook_path ∷ []))),
    Action.execute "ansible-playbook" (playbook_path ∷ []) ∷ [],
  )

  abbrev created : Failure → Call Failure
  created none = ret none
  created (some e) = panic e

  -- The job is deleted, whether or not that succeeds, and created again.
  unfoldable pub recreate : env.Job → Run
  recreate job =
      let namespace = env.job_namespace job in
      (
        created (env.create_job namespace job),
        Action.delete_job namespace (env.job_name job) ∷ Action.create_job namespace job ∷ [],
      )

  abbrev pub job_config : JobConfig
  job_config = record { job_name = ""; namespace = ""; percentage = "80" }

  abbrev or_panic : {A : Type 0} → Result A → (A → Run) → Run
  or_panic (err e) k = (panic e, [])
  or_panic (ok a) k = k a

  abbrev failing : String → Failure → Run → Run
  failing message (some e) k = (ret (some (message ++ e)), [])
  failing message none k = k

  unfoldable pub run_manifest : String → Run
  unfolding recreate
  run_manifest manifest = or_panic (env.parse_template manifest) λ template.
      or_panic (env.execute_template template job_config)
        λ text. or_panic (env.decode_job text) recreate

  unfoldable pub run_kubernetes : String → Run
  unfolding run_manifest
  run_kubernetes job_manifest_path =
      failing "failed to load in-cluster config: " env.in_cluster_config (
        failing "failed to create Kubernetes client: " env.new_for_config
          (elim (env.read_file job_manifest_path) [
            | err e ↦ (ret (some ("failed to read job manifest: " ++ e)), [])
            | ok manifest ↦ run_manifest manifest
          ]))

  -- The call of `Run` through the interface.
  unfoldable pub run : Runner → Run
  unfolding run_ansible run_kubernetes
  run (ansible path) = run_ansible path
  run (kubernetes path) = run_kubernetes path
