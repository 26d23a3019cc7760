-- ===== src/Webhook/Alert/Accepted.antt =====
-- Which requests to /alert are accepted, and what runs for them.
use Prim.Native.String.{◌++◌}
use climatik_project.Prelude.{
  Bool, ◌||◌, String, ◌≡◌, ◌≢◌, refl, ap, some, [], ◌⊎◌, inl, inr, arith, Bool-cases, ◌==◌,
  ==-eq-true, ==-eq-false, false,
}
use climatik_project.Go.Result.{ok, err, ret, Failure, Result-cases}
use climatik_project.Go.Map.{get}
use climatik_project.Go.Http.{Response, fresh, status, http_error, write, write_header}
use climatik_project.Webhook.Runners.{RunnerEnv}
use climatik_project.Webhook.Handlers.{get_handler, handle_alert}
use climatik_project.Webhook.Alert.{Request, alert_handler}

-- The only requests that get past the handler factory.
abbrev pub IsAccepted : Request → Type 0
IsAccepted r =
    (get "" "source" r.query ≡ "slack")
    × (get "" "runner" r.query ≢ "")
    × (get "" "path" r.query ≢ "")
    × ((body : String) × (r.body ≡ ok body))

module _ (env : RunnerEnv) (unmarshal : String → Failure) where
  get_handler-other :
      (source : String) → source ≢ "slack" → (e : String) × (get_handler source ≡ err e)
  unfolding get_handler
  get_handler-other source other = elim (Bool-cases (source == "prometheus")) [
    | inl prometheus ↦ (
      "PrometheusAlertHandler not implemented",
      rw (==-eq-false source "slack" other, prometheus),
    )
    | inr h ↦ elim (Bool-cases (source == "gitops")) [
      | inl gitops ↦
          ("GitOpsAlertHandler not implemented", rw (==-eq-false source "slack" other, h, gitops))
      | inr k ↦ ("unknown alert source: " ++ source, rw (==-eq-false source "slack" other, h, k))
    ]
  ]

  -- The test of the three query parameters.
  abbrev lacks_parameters : Request → Bool
  lacks_parameters r =
      get "" "source" r.query == "" || get "" "runner" r.query == "" || get "" "path" r.query == ""

  accepted-parameters : (r : Request) → IsAccepted r → lacks_parameters r ≡ false
  accepted-parameters r (source, runner, path, body) = rw (
    source,
    ==-eq-false (get "" "runner" r.query) "" runner,
    ==-eq-false (get "" "path" r.query) "" path,
  )

  parameters-runner : (r : Request) → lacks_parameters r ≡ false → get "" "runner" r.query ≢ ""
  parameters-runner r has empty = ground (arith, ap (λ x. x == "") empty)

  parameters-path : (r : Request) → lacks_parameters r ≡ false → get "" "path" r.query ≢ ""
  parameters-path r has empty = ground (arith, ap (λ x. x == "") empty)

  -- The endpoint always answers; the answer is 200 exactly for a readable request from Slack that
  -- names a runner and a path, and 400 for every other; and in no case is a playbook run or a job
  -- deleted or created.
  pub alert_handler-answers :
      (r : Request)
      → (w : Response) × (alert_handler env unmarshal r fresh ≡ (ret w, []))
        × ((IsAccepted r × (status w ≡ some 200)) ⊎ ((¬ IsAccepted r) × (status w ≡ some 400)))
  unfolding alert_handler get_handler handle_alert
  alert_handler-answers r = elim (Bool-cases (lacks_parameters r)) [
    | inl lacks ↦ (
      http_error "Source, runner, and path query parameters are required" 400 fresh,
      rw lacks,
      inr ((λ a. ground (arith, accepted-parameters r a)), refl),
    )
    | inr has ↦ elim (Result-cases r.body) [
      | inr (e, bad) ↦ (
        http_error "Failed to read request body" 400 fresh,
        rw (has, bad),
        inr ((λ a. ground (arith, a.3.1)), refl),
      )
      | inl (body, read) ↦ elim (Bool-cases (get "" "source" r.query == "slack")) [
        | inl from_slack ↦ (
          write "Alert received and handled" (write_header 200 fresh),
          rw (has, read, from_slack),
          inl (
            (
              ==-eq-true (get "" "source" r.query) "slack" from_slack,
              parameters-runner r has,
              parameters-path r has,
              (body, read),
            ),
            refl,
          ),
        )
        | inr other ↦
            let (e, refused) =
              get_handler-other (get "" "source" r.query)
                (λ eq. ground (arith, ap (λ x. x == "slack") eq)) in
            (
              http_error e 400 fresh,
              ground arith,
              inr ((λ a. ground (arith, ap (λ x. x == "slack") a.0)), refl),
            )
      ]
    ]
  ]
