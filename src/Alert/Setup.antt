-- ===== src/Alert/Setup.antt =====
-- What `NewAlertService` makes of a configuration: when it succeeds, and who is subscribed then.
use Prim.Native.String
use mathlib.Core.List.{append-nil, append_assoc}
use climatik_project.Prelude.{
  String, none, List, [], ◌∷◌, ◌++◌, ◌≡◌, refl, sym, ap, arith, subst, ◌∙◌, ◌⊎◌, inl, inr, ◌≢◌, ◌↔◌,
  eq_iff, All,
}
use climatik_project.Go.Result.{Result, ok, err, Failure, Result-cases}
use climatik_project.Go.Map.{Map, get, get-insert_self, get-insert_ne, get-nil}
use climatik_project.Alert.World.{World}
use climatik_project.Alert.Prometheus.{new_prometheus_alert_manager}
use climatik_project.Alert.GitOps.{new_git_ops_alert_manager}
use climatik_project.Alert.Manager.{
  AlertManager, prometheus, git_ops, slack, new_alert_manager, type_prometheus, type_git_ops,
  type_slack,
}
use climatik_project.Alert.PubSub.{PubSub, subscribe, new_pub_sub}
use climatik_project.Alert.Service.{
  AlertService, with_service, subscribe_all, create_alert_service, new_alert_service, topic_alerts,
}

-- The manager that an entry of the configuration asks for.
abbrev pub IsFor : String × Map String → AlertManager → Type 0
IsFor (manager_type, config) (prometheus p) =
    (manager_type ≡ type_prometheus)
    × (p.alertmanager_url ≡ String.◌++◌ (get "" "prometheusAddress" config) "/api/v1/alerts")
IsFor (manager_type, config) (git_ops g) =
    (manager_type ≡ type_git_ops) × (g.repo_dir ≡ get "" "repoDir" config)
IsFor (manager_type, config) (slack s) =
    (manager_type ≡ type_slack) × (s.webhook_url ≡ get "" "webhookURL" config)

-- An entry for which a manager can be made.
abbrev pub IsCreatable : (String → Failure) → String × Map String → Type 0
IsCreatable new_client (manager_type, config) =
    ((manager_type ≡ type_prometheus) × (new_client (get "" "prometheusAddress" config) ≡ none))
    ⊎ (manager_type ≡ type_git_ops)
    ⊎ (manager_type ≡ type_slack)

-- Entry by entry, in order.
abbrev pub AreFor : Map (Map String) → List AlertManager → Type 0
AreFor [] [] = Unit
AreFor (e ∷ es) (m ∷ ms) = IsFor e m × AreFor es ms
AreFor _ _ = ⊥

new_alert_manager-IsFor :
    (new_client : String → Failure) (manager_type : String) (config : Map String) (w : World)
    (m : AlertManager)
    → (new_alert_manager new_client manager_type config w).0 ≡ ok m
    → IsFor (manager_type, config) m × IsCreatable new_client (manager_type, config)
unfolding new_alert_manager new_prometheus_alert_manager new_git_ops_alert_manager
new_alert_manager-IsFor new_client t config w (prometheus p) e =
    ground (arith, eq_iff t type_prometheus, eq_iff t type_git_ops, eq_iff t type_slack)
new_alert_manager-IsFor new_client t config w (git_ops g) e =
    ground (arith, eq_iff t type_prometheus, eq_iff t type_git_ops, eq_iff t type_slack)
new_alert_manager-IsFor new_client t config w (slack s) e =
    ground (arith, eq_iff t type_prometheus, eq_iff t type_git_ops, eq_iff t type_slack)

new_alert_manager-ok :
    (new_client : String → Failure) (manager_type : String) (config : Map String) (w : World)
    → IsCreatable new_client (manager_type, config)
    → (m : AlertManager) × ((new_alert_manager new_client manager_type config w).0 ≡ ok m)
unfolding new_alert_manager new_prometheus_alert_manager new_git_ops_alert_manager
new_alert_manager-ok new_client t config w (inl (e, free)) = (
  prometheus (record {
    alertmanager_url = String.◌++◌ (get "" "prometheusAddress" config) "/api/v1/alerts";
  }),
  rw e (ground arith),
)
new_alert_manager-ok new_client t config w (inr (inl e)) =
    (git_ops (record { repo_dir = get "" "repoDir" config; alerts = w.next }), rw e)
new_alert_manager-ok new_client t config w (inr (inr e)) =
    (slack (record { webhook_url = get "" "webhookURL" config }), rw e)

abbrev pub subscribers_of : String → PubSub → List AlertManager
subscribers_of topic ps = get [] topic ps.subscribers

pub subscribers-subscribe :
    (topic : String) (m : AlertManager) (ps : PubSub)
    → subscribers_of topic (subscribe topic m ps) ≡ subscribers_of topic ps ++ m ∷ []
unfolding subscribe
subscribers-subscribe topic m ps =
    get-insert_self [] topic (subscribers_of topic ps ++ m ∷ []) ps.subscribers

subscribers-subscribe_ne :
    (topic other : String) (m : AlertManager) (ps : PubSub)
    → topic ≢ other
    → subscribers_of other (subscribe topic m ps) ≡ subscribers_of other ps
unfolding subscribe
subscribers-subscribe_ne topic other m ps h =
    get-insert_ne [] topic other (subscribers_of topic ps ++ m ∷ []) ps.subscribers h

with_service-eq-ok :
    (x : Result PubSub × World) (s : AlertService) → (with_service x).0 ≡ ok s → x.0 ≡ ok s.pubsub
with_service-eq-ok (ok ps, w) s e = cc
with_service-eq-ok (err x, w) s e = cc

with_service-ok :
    (x : Result PubSub × World) (ps : PubSub)
    → x.0 ≡ ok ps
    → (with_service x).0 ≡ ok (record { pubsub = ps })
with_service-ok (ok ps', w) ps e = cc
with_service-ok (err x, w) ps e = cc

module _ (new_client : String → Failure) where
  -- What the loop adds when it succeeds: one manager for each entry, in the order of the entries.
  pub record Adds (config : Map (Map String)) (ps ps' : PubSub) : Type 0 where
    pub added : List AlertManager
    pub are_for : AreFor config added
    pub creatable : All (IsCreatable new_client) config
    pub alerts : subscribers_of topic_alerts ps' ≡ subscribers_of topic_alerts ps ++ added
    pub others :
        (topic : String) → topic_alerts ≢ topic → subscribers_of topic ps' ≡ subscribers_of topic ps

  Adds-cons :
      (t : String) (c : Map String) (config : Map (Map String)) (m : AlertManager) (ps ps' : PubSub)
      → IsFor (t, c) m × IsCreatable new_client (t, c)
      → Adds config (subscribe topic_alerts m ps) ps'
      → Adds ((t, c) ∷ config) ps ps'
  Adds-cons t c config m ps ps' (is_for, creatable) rest = record {
    added = m ∷ rest.added;
    are_for = (is_for, rest.are_for);
    creatable = (creatable, rest.creatable);
    alerts =
        rest.alerts
        ∙ ap (λ l. l ++ rest.added) (subscribers-subscribe topic_alerts m ps)
        ∙ append_assoc (subscribers_of topic_alerts ps) (m ∷ []) rest.added;
    others = λ topic h. rest.others topic h ∙ subscribers-subscribe_ne topic_alerts topic m ps h;
  }

  subscribe_all-Adds :
      (config : Map (Map String)) (ps : PubSub) (w : World) (ps' : PubSub)
      → (subscribe_all new_client config ps w).0 ≡ ok ps'
      → Adds config ps ps'
  unfolding subscribe_all
  subscribe_all-Adds [] ps w ps' e =
      let same : ps ≡ ps' = cc in
      subst (Adds [] ps) same (record {
        added = [];
        are_for = tt;
        creatable = tt;
        alerts = sym (append-nil _);
        others = λ topic h. refl;
      })
  subscribe_all-Adds ((t, c) ∷ config) ps w ps' e =
      let made = new_alert_manager new_client t c w in
      elim (Result-cases made.0) [
        | inl (m, q) ↦
            Adds-cons t c config m ps ps' (new_alert_manager-IsFor new_client t c w m q) (
              subscribe_all-Adds config (subscribe topic_alerts m ps) made.1 ps'
                (rw (q, subscribe_all) at e))
        | inr (x, q) ↦ let bad = rw (q, subscribe_all) at e in cc
      ]

  subscribe_all-ok :
      (config : Map (Map String)) (ps : PubSub) (w : World)
      → All (IsCreatable new_client) config
      → (ps' : PubSub) × ((subscribe_all new_client config ps w).0 ≡ ok ps')
  unfolding subscribe_all
  subscribe_all-ok [] ps w h = (ps, refl)
  subscribe_all-ok ((t, c) ∷ config) ps w (h, hs) =
      let made = new_alert_manager new_client t c w in
      let (m, q) = new_alert_manager-ok new_client t c w h in
      let (ps', r) = subscribe_all-ok config (subscribe topic_alerts m ps) made.1 hs in
      (ps', rw (q, subscribe_all) r)

  pub new_alert_service-eq-ok :
      (config : Map (Map String)) (w : World) (s : AlertService)
      → (new_alert_service new_client config w).0 ≡ ok s
      → (subscribe_all new_client config new_pub_sub w).0 ≡ ok s.pubsub
  unfolding new_alert_service create_alert_service
  new_alert_service-eq-ok config w s e =
      with_service-eq-ok (subscribe_all new_client config new_pub_sub w) s e

  -- `NewAlertService` succeeds exactly when a manager can be made for every entry: its type is
  -- "prometheus", and the Prometheus library accepts the address, or "gitops", or "slack".
  pub new_alert_service-ok_iff :
      (config : Map (Map String)) (w : World)
      → ((s : AlertService) × ((new_alert_service new_client config w).0 ≡ ok s))
        ↔ All (IsCreatable new_client) config
  new_alert_service-ok_iff config w = (
    λ (s, e).
        (subscribe_all-Adds config new_pub_sub w s.pubsub
          (new_alert_service-eq-ok config w s e)).creatable,
    λ h.
        let (ps, r) = subscribe_all-ok config new_pub_sub w h in
        (
          record { pubsub = ps },
          unfold new_alert_service create_alert_service in
              with_service-ok (subscribe_all new_client config new_pub_sub w) ps r,
        ),
  )

  -- After a success the subscribers of the topic "alerts" are one manager for each entry of the
  -- configuration, in the order in which the map was visited, each of the type and with the
  -- address, directory or URL of its entry; no other topic has a subscriber.
  pub new_alert_service-subscribes :
      (config : Map (Map String)) (w : World) (s : AlertService)
      → (new_alert_service new_client config w).0 ≡ ok s
      → AreFor config (subscribers_of topic_alerts s.pubsub)
        × ((topic : String) → topic_alerts ≢ topic → subscribers_of topic s.pubsub ≡ [])
  new_alert_service-subscribes config w s e =
      let adds =
        subscribe_all-Adds config new_pub_sub w s.pubsub (new_alert_service-eq-ok config w s e) in
      let none_before = λ (topic : String). get-nil {V = List AlertManager} [] topic in
      (
        subst (AreFor config)
            (sym (adds.alerts ∙ ap (λ l. l ++ adds.added) (none_before topic_alerts))) adds.are_for,
        λ topic h. adds.others topic h ∙ none_before topic,
      )
