-- ===== src/Cmd/Controller/Exits.antt =====
-- When the controller program runs to its end, and which alert managers it has.
use Prim.Native.String.{◌++◌}
use mathlib.Core.List.{Perm}
use mathlib.Core.List.Permᴰ
use text.Mathlib.TextEquality.{IsScalar-prop}
use mathlib.Core.Logic.{∥∥₁_elim}
use climatik_project.Prelude.{
  String, ◌≡◌, refl, ◌↔◌, inl, inr, none, some, [], ◌∷◌, map, All, arith, eq_iff,
}
use climatik_project.Go.Result.{Result, ok, Failure, Result-cases}
use climatik_project.Go.Map.{Map, get, lookup}
use climatik_project.Alert.World.{World}
use climatik_project.Alert.Service.{AlertService, new_alert_service, topic_alerts}
use climatik_project.Alert.Manager.{type_prometheus, type_git_ops, type_slack}
use climatik_project.Alert.Setup.{IsCreatable, subscribers_of, new_alert_service-ok_iff}
use climatik_project.Alert.Destinations.{
  alertmanager, repository, hook, destination, destinations-perm, All-Permᴰ,
}
use climatik_project.Controller.Informer.Reports.{AllSucceed, setup_with_manager_iff}
use climatik_project.Cmd.Controller.{
  MainEnv, Environment, returned, alert_config, manager_options, prometheus_url, loaded_env, main,
}

-- Of the libraries: a loop over a map visits every entry once.
abbrev pub VisitsAll : MainEnv → Type 0
VisitsAll m = (config : Map (Map String)) → Perm (m.visit config) config

-- Every call that the program makes itself, and every one of the reconciler's set-up.
abbrev pub EveryCallSucceeds : MainEnv → Type 0
EveryCallSucceeds m =
    (m.add_client_go_scheme ≡ none)
    × (m.add_to_scheme ≡ none)
    × (m.get_config ≡ none)
    × (m.new_manager (manager_options m.flags) ≡ none)
    × (m.new_client (loaded_env m "PROMETHEUS_HOST") ≡ none)
    × AllSucceed m.manager (prometheus_url m)
    × (m.start ≡ none)

config_creatable :
    (new_client : String → Failure) (getenv : Environment)
    → All (IsCreatable new_client) (alert_config getenv)
    → new_client (getenv "PROMETHEUS_HOST") ≡ none
unfolding alert_config get lookup
config_creatable new_client getenv (inl (named, accepted), _) = accepted
config_creatable new_client getenv (inr (inl other), _) =
    absurd (ground (arith, eq_iff type_prometheus type_git_ops))
config_creatable new_client getenv (inr (inr other), _) =
    absurd (ground (arith, eq_iff type_prometheus type_slack))

IsCreatable-config :
    (new_client : String → Failure) (getenv : Environment)
    → new_client (getenv "PROMETHEUS_HOST") ≡ none
    → All (IsCreatable new_client) (alert_config getenv)
unfolding alert_config get lookup
IsCreatable-config new_client getenv e = (inl (refl, e), (inr (inl refl), (inr (inr refl), tt)))

-- The service can be made exactly when the Prometheus library accepts the address.
module _ (m : MainEnv) (visits : VisitsAll m) (w : World) where
  abbrev made : Result AlertService × World
  made = new_alert_service m.new_client (m.visit (alert_config (loaded_env m))) w

  service_made :
      m.new_client (loaded_env m "PROMETHEUS_HOST") ≡ none → (s : AlertService) × (made.0 ≡ ok s)
  service_made e = elim (Result-cases made.0) [
    | inl found ↦ found
    | inr (x, bad) ↦ absurd (
        ∥∥₁_elim (visits (alert_config (loaded_env m))) (hlevel) λ p.
          let creatable =
            All-Permᴰ (IsCreatable m.new_client) (Permᴰ.symm p)
              (IsCreatable-config m.new_client (loaded_env m) e) in
          let (s, good) =
            (new_alert_service-ok_iff m.new_client (m.visit (alert_config (loaded_env m))) w).1
              creatable in
          cc)
  ]

  made_service :
      (s : AlertService) → made.0 ≡ ok s → m.new_client (loaded_env m "PROMETHEUS_HOST") ≡ none
  made_service s e = ∥∥₁_elim (visits (alert_config (loaded_env m))) (hlevel IsScalar-prop) λ p.
      config_creatable m.new_client (loaded_env m) (
        All-Permᴰ (IsCreatable m.new_client) p (
          (new_alert_service-ok_iff m.new_client (m.visit (alert_config (loaded_env m))) w).0
            (s, e)))

  returns-succeeds : (main m w).exit ≡ returned → EveryCallSucceeds m
  unfolding main
  returns-succeeds e = elim (Result-cases made.0) [
    | inl (s, good) ↦
        ground
          (arith, made_service s good, (setup_with_manager_iff m.manager (prometheus_url m)).0.0)
    | inr (x, bad) ↦ ground arith
  ]

  succeeds-returns : EveryCallSucceeds m → (main m w).exit ≡ returned
  unfolding main
  succeeds-returns (client_go, own, config, manager, client, setup, start) =
      let (s, good) = service_made client in
      ground (arith, (setup_with_manager_iff m.manager (prometheus_url m)).0.1 setup)

  -- Where a loop over a map visits every entry once, the controller program, with flags that could
  -- be parsed, ends without an error exactly when every call succeeds: the two registrations of the
  -- scheme, the cluster's configuration, the manager, the Prometheus client for PROMETHEUS_HOST,
  -- all of the reconciler's set-up with the URL of PROM_URL, and the manager's run.
  pub main-returns_iff : ((main m w).exit ≡ returned) ↔ EveryCallSucceeds m
  main-returns_iff = (returns-succeeds, succeeds-returns)

  service-made : (s : AlertService) → (main m w).service ≡ some s → made.0 ≡ ok s
  unfolding main
  service-made s e = elim (Result-cases made.0) [
    | inl (s', good) ↦ ground arith
    | inr (x, bad) ↦ ground arith
  ]

  -- Where a loop over a map visits every entry once: whenever the program gets as far as having an
  -- alert service, the service's subscribers are exactly three, in some order: the Alertmanager
  -- under PROMETHEUS_HOST, the repository in GITOPS_REPO_DIR and the webhook SLACK_WEBHOOK_URL, all
  -- read after the .env file.
  pub main-destinations :
      (s : AlertService)
      → (main m w).service ≡ some s
      → Perm (map destination (subscribers_of topic_alerts s.pubsub)) (
          alertmanager (loaded_env m "PROMETHEUS_HOST" ++ "/api/v1/alerts")
          ∷ repository (loaded_env m "GITOPS_REPO_DIR")
          ∷ hook (loaded_env m "SLACK_WEBHOOK_URL")
          ∷ [])
  unfolding alert_config get lookup
  main-destinations s e =
      destinations-perm m.new_client (alert_config (loaded_env m)) _ w s
        (visits (alert_config (loaded_env m))) (service-made s e)
