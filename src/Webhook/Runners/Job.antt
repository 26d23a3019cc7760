-- ===== src/Webhook/Runners/Job.antt =====
-- What the Kubernetes runner has done when it returns.
use Prim.Native.String.{◌++◌}
use climatik_project.Prelude.{String, ◌≡◌, none, some, [], ◌∷◌, ◌⊎◌, inl, inr, Option-cases}
use climatik_project.Go.Result.{ok, ret, panic, Error, Result-cases}
use climatik_project.Webhook.Runners.{
  RunnerEnv, Action, job_config, recreate, run_manifest, run_kubernetes,
}

module _ (env : RunnerEnv) where
  -- The job that the file at the path describes, with the fixed percentage filled in.
  abbrev pub IsJobAt : String → env.Job → Type 0
  IsJobAt path job =
      (manifest : String) × (template : env.Template) × (text : String) × (env.read_file path
        ≡ ok manifest)
      × (env.parse_template manifest ≡ ok template)
      × (env.execute_template template (job_config env) ≡ ok text)
      × (env.decode_job text ≡ ok job)

  created_cases :
      (path : String) (job : env.Job)
      → env.in_cluster_config ≡ none
      → env.new_for_config ≡ none
      → IsJobAt path job
      → ((env.create_job (env.job_namespace job) job ≡ none)
          × ((run_kubernetes env path).0 ≡ ret none))
        ⊎ ((e : Error) × (env.create_job (env.job_namespace job) job ≡ some e)
            × ((run_kubernetes env path).0 ≡ panic e))
  unfolding run_kubernetes run_manifest recreate
  created_cases path job loaded made (_, _, _, read, parsed, executed, decoded) =
      elim (Option-cases (env.create_job (env.job_namespace job) job)) [
        | inl accepted ↦
            inl (accepted, rw (loaded, made, read, parsed, executed, decoded, accepted))
        | inr (e, refused) ↦
            inr (e, refused, rw (loaded, made, read, parsed, executed, decoded, refused))
      ]

  -- Every run of the Kubernetes runner is one of three: it returns an error or panics and has
  -- touched nothing; it returns nil, and the job that the manifest describes was deleted and
  -- created again; or the job was deleted and creating it failed, which panics.
  pub run_kubernetes_cases :
      (path : String)
      → ((e : Error) × (run_kubernetes env path ≡ (ret (some e), [])))
        ⊎ (((m : String) × (run_kubernetes env path ≡ (panic m, [])))
            ⊎ ((job : env.Job) × IsJobAt path job
                × ((run_kubernetes env path).1
                    ≡ Action.delete_job (env.job_namespace job) (env.job_name job)
                      ∷ Action.create_job (env.job_namespace job) job
                      ∷ [])
                × (((env.create_job (env.job_namespace job) job ≡ none)
                      × ((run_kubernetes env path).0 ≡ ret none))
                    ⊎ ((e : Error) × (env.create_job (env.job_namespace job) job ≡ some e)
                        × ((run_kubernetes env path).0 ≡ panic e)))))
  unfolding run_kubernetes run_manifest recreate
  run_kubernetes_cases path = elim (Option-cases env.in_cluster_config) [
    | inr (e, bad) ↦ inl ("failed to load in-cluster config: " ++ e, rw bad)
    | inl loaded ↦ elim (Option-cases env.new_for_config) [
      | inr (e, bad) ↦ inl ("failed to create Kubernetes client: " ++ e, rw (loaded, bad))
      | inl made ↦ elim (Result-cases (env.read_file path)) [
        | inr (e, bad) ↦ inl ("failed to read job manifest: " ++ e, rw (loaded, made, bad))
        | inl (manifest, read) ↦ elim (Result-cases (env.parse_template manifest)) [
          | inr (e, bad) ↦ inr (inl (e, rw (loaded, made, read, bad)))
          | inl (template, parsed) ↦
              elim (Result-cases (env.execute_template template (job_config env))) [
                | inr (e, bad) ↦ inr (inl (e, rw (loaded, made, read, parsed, bad)))
                | inl (text, executed) ↦ elim (Result-cases (env.decode_job text)) [
                  | inr (e, bad) ↦ inr (inl (e, rw (loaded, made, read, parsed, executed, bad)))
                  | inl (job, decoded) ↦ inr (
                      inr (
                        job,
                        (manifest, template, text, read, parsed, executed, decoded),
                        rw (loaded, made, read, parsed, executed, decoded),
                        created_cases path job loaded made
                            (manifest, template, text, read, parsed, executed, decoded),
                      ))
                ]
              ]
        ]
      ]
    ]
  ]
