-- ===== src/Webhook/Examples.antt =====
-- The theorems on the alert webhook and the runners at one request and one manifest.
use climatik_project.Prelude.{String, none, some, [], ◌∷◌, ◌≡◌, ◌⊎◌}
use climatik_project.Go.Result.{Error, ok, ret, panic, Failure}
use climatik_project.Go.Http.{Response, fresh, status}
use climatik_project.Webhook.Runners.{RunnerEnv, Action, run_kubernetes}
use climatik_project.Webhook.Runners.Job.{IsJobAt, run_kubernetes_cases}
use climatik_project.Webhook.Alert.{alert_handler}
use climatik_project.Webhook.Alert
use climatik_project.Webhook.Alert.Accepted.{IsAccepted, alert_handler-answers}

-- A cluster in which the manifest is the text of the job's name, and creating a job succeeds.
abbrev example_runners : RunnerEnv
example_runners = record {
  Job = String;
  Template = String;
  job_name = λ job. job;
  job_namespace = λ job. "default";
  combined_output = λ command arguments. ("", none);
  in_cluster_config = none;
  new_for_config = none;
  read_file = λ path. ok "cap-job";
  parse_template = λ text. ok text;
  execute_template = λ template config. ok template;
  decode_job = λ text. ok text;
  delete_job = λ namespace name. some "not found";
  create_job = λ namespace job. none;
}

run_kubernetes_cases_example :
    ((e : Error) × (run_kubernetes example_runners "/job.yaml" ≡ (ret (some e), [])))
    ⊎ (((m : String) × (run_kubernetes example_runners "/job.yaml" ≡ (panic m, [])))
        ⊎ ((job : String) × IsJobAt example_runners "/job.yaml" job
            × ((run_kubernetes example_runners "/job.yaml").1
                ≡ Action.delete_job "default" job ∷ Action.create_job "default" job ∷ [])
            × (((example_runners.create_job "default" job ≡ none)
                  × ((run_kubernetes example_runners "/job.yaml").0 ≡ ret none))
                ⊎ ((e : Error) × (example_runners.create_job "default" job ≡ some e)
                    × ((run_kubernetes example_runners "/job.yaml").0 ≡ panic e)))))
run_kubernetes_cases_example = run_kubernetes_cases example_runners "/job.yaml"

abbrev alert_request : Alert.Request
alert_request = record {
  query = ("source", "slack") ∷ ("runner", "kubernetes") ∷ ("path", "/job.yaml") ∷ [];
  body = ok "{}";
}

abbrev accept_json : String → Failure
accept_json text = none

alert_handler-answers_example :
    (w : Response) × (alert_handler example_runners accept_json alert_request fresh ≡ (ret w, []))
    × ((IsAccepted alert_request × (status w ≡ some 200))
        ⊎ ((¬ IsAccepted alert_request) × (status w ≡ some 400)))
alert_handler-answers_example = alert_handler-answers example_runners accept_json alert_request
