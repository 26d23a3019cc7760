-- ===== src/Alert/Maps.antt =====
-- The managers of one alert service never share a map.
use climatik_project.Prelude.{
  ℕ, ◌≤◌, ◌<◌, String, List, [], ◌∷◌, ◌++◌, ◌≡◌, ◌≢◌, arith, eq_iff, All, All-append, subst, inl,
  inr,
}
use climatik_project.Go.Result.{ok, Failure, Result-cases}
use climatik_project.Go.Map.{Map, get, lookup}
use climatik_project.Alert.World.{World}
use climatik_project.Alert.Prometheus.{new_prometheus_alert_manager}
use climatik_project.Alert.GitOps.{new_git_ops_alert_manager}
use climatik_project.Alert.Manager.{
  AlertManager, prometheus, git_ops, slack, new_alert_manager, type_prometheus, type_git_ops,
  type_slack,
}
use climatik_project.Alert.PubSub.{PubSub, new_pub_sub, subscribe}
use climatik_project.Alert.Service.{AlertService, new_alert_service, subscribe_all, topic_alerts}
use climatik_project.Alert.Setup.{subscribers_of, subscribers-subscribe, new_alert_service-eq-ok}

-- The manager's map, if it has one, was made before the counter stood at the number.
abbrev Before : ℕ → AlertManager → Type 0
Before n (git_ops g) = g.alerts < n
Before n _ = Unit

abbrev NotBefore : ℕ → AlertManager → Type 0
NotBefore n (git_ops g) = n ≤ g.alerts
NotBefore n _ = Unit

-- Two managers that share no map.
abbrev pub Apart : AlertManager → AlertManager → Type 0
Apart (git_ops g) (git_ops h) = g.alerts ≢ h.alerts
Apart _ _ = Unit

-- No two of the managers share a map.
abbrev pub AreApart : List AlertManager → Type 0
AreApart [] = Unit
AreApart (m ∷ ms) = All (Apart m) ms × AreApart ms

Before-later : (n k : ℕ) (m : AlertManager) → n ≤ k → Before n m → Before k m
Before-later n k (git_ops g) le h = omega arith
Before-later n k (prometheus p) le h = tt
Before-later n k (slack s) le h = tt

All-Before-later :
    (n k : ℕ) (ms : List AlertManager) → n ≤ k → All (Before n) ms → All (Before k) ms
All-Before-later n k [] le h = tt
All-Before-later n k (m ∷ ms) le (h, hs) = (Before-later n k m le h, All-Before-later n k ms le hs)

Before-Apart : (n : ℕ) (k m : AlertManager) → Before n k → NotBefore n m → Apart k m
Before-Apart n (git_ops g) (git_ops h) b a = omega arith
Before-Apart n (git_ops g) (prometheus p) b a = tt
Before-Apart n (git_ops g) (slack s) b a = tt
Before-Apart n (prometheus p) m b a = tt
Before-Apart n (slack s) m b a = tt

AreApart-snoc :
    (n : ℕ) (ms : List AlertManager) (m : AlertManager)
    → NotBefore n m
    → All (Before n) ms
    → AreApart ms
    → AreApart (ms ++ m ∷ [])
AreApart-snoc n [] m a b d = (tt, tt)
AreApart-snoc n (k ∷ ms) m a (b, bs) (d, ds) =
    (All-append (Apart k) ms (m ∷ []) d (Before-Apart n k m b a, tt), AreApart-snoc n ms m a bs ds)

-- A new manager's map is new.
new_alert_manager-NotBefore :
    (new_client : String → Failure) (t : String) (config : Map String) (w : World)
    (m : AlertManager)
    → (new_alert_manager new_client t config w).0 ≡ ok m
    → (w.next ≤ (new_alert_manager new_client t config w).1.next)
      × Before (new_alert_manager new_client t config w).1.next m
      × NotBefore w.next m
unfolding new_alert_manager new_prometheus_alert_manager new_git_ops_alert_manager
new_alert_manager-NotBefore new_client t config w (prometheus p) e =
    ground (arith, eq_iff t type_prometheus, eq_iff t type_git_ops, eq_iff t type_slack)
new_alert_manager-NotBefore new_client t config w (git_ops g) e =
    ground (arith, eq_iff t type_prometheus, eq_iff t type_git_ops, eq_iff t type_slack)
new_alert_manager-NotBefore new_client t config w (slack s) e =
    ground (arith, eq_iff t type_prometheus, eq_iff t type_git_ops, eq_iff t type_slack)

-- All of the hub's managers under "alerts" are apart, with maps that were made so far.
abbrev OwnMaps : PubSub → World → Type 0
OwnMaps ps w =
    All (Before w.next) (subscribers_of topic_alerts ps) × AreApart (subscribers_of topic_alerts ps)

subscribe-OwnMaps :
    (new_client : String → Failure) (t : String) (config : Map String) (ps : PubSub) (w : World)
    (m : AlertManager)
    → (new_alert_manager new_client t config w).0 ≡ ok m
    → OwnMaps ps w
    → OwnMaps (subscribe topic_alerts m ps) (new_alert_manager new_client t config w).1
subscribe-OwnMaps new_client t config ps w m e (befores, apart) =
    let (later, before, not_before) = new_alert_manager-NotBefore new_client t config w m e in
    let ms = subscribers_of topic_alerts ps in
    rw (subscribers-subscribe topic_alerts m ps) (
      All-append (Before _) ms (m ∷ []) (All-Before-later w.next _ ms later befores) (before, tt),
      AreApart-snoc w.next ms m not_before befores apart,
    )

subscribe_all-AreApart :
    (new_client : String → Failure) (config : Map (Map String)) (ps : PubSub) (w : World)
    (ps' : PubSub)
    → (subscribe_all new_client config ps w).0 ≡ ok ps'
    → OwnMaps ps w
    → AreApart (subscribers_of topic_alerts ps')
unfolding subscribe_all
subscribe_all-AreApart new_client [] ps w ps' e own =
    let same : ps ≡ ps' = cc in subst (λ q. AreApart (subscribers_of topic_alerts q)) same own.1
subscribe_all-AreApart new_client ((t, c) ∷ config) ps w ps' e own =
    let made = new_alert_manager new_client t c w in
    elim (Result-cases made.0) [
      | inl (m, q) ↦
          subscribe_all-AreApart new_client config (subscribe topic_alerts m ps) made.1 ps'
            (rw (q, subscribe_all) at e) (subscribe-OwnMaps new_client t c ps w m q own)
      | inr (x, q) ↦ let bad = rw (q, subscribe_all) at e in cc
    ]

-- No two subscribers of a service that `NewAlertService` has made share a map.
pub new_alert_service-AreApart :
    (new_client : String → Failure) (config : Map (Map String)) (w : World) (s : AlertService)
    → (new_alert_service new_client config w).0 ≡ ok s
    → AreApart (subscribers_of topic_alerts s.pubsub)
unfolding get lookup
new_alert_service-AreApart new_client config w s e =
    subscribe_all-AreApart new_client config new_pub_sub w s.pubsub
      (new_alert_service-eq-ok new_client config w s e) (tt, tt)
