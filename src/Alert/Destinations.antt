-- ===== src/Alert/Destinations.antt =====
-- Where the alerts of a manager go, and that the order of a configuration does not matter.
use Prim.Native.String.{◌++◌}
use mathlib.Core.List.{Perm, Permᴰ}
use mathlib.Core.List.Perm
use climatik_project.Prelude.{
  String, ◌≡◌, refl, sym, subst, List, [], ◌∷◌, map, All, arith, ◌==◌, if◌then◌else◌,
}
use climatik_project.Go.Result.{ok, Failure}
use climatik_project.Go.Map.{Map, get}
use climatik_project.Alert.World.{World}
use climatik_project.Alert.Manager.{
  AlertManager, prometheus, git_ops, slack, type_prometheus, type_git_ops,
}
use climatik_project.Alert.Service.{AlertService, new_alert_service, topic_alerts}
use climatik_project.Alert.Setup.{AreFor, IsFor, subscribers_of, new_alert_service-subscribes}

pub data Destination : Type 0 where
  alertmanager : String → Destination
  repository : String → Destination
  hook : String → Destination

abbrev pub destination : AlertManager → Destination
destination (prometheus p) = alertmanager p.alertmanager_url
destination (git_ops g) = repository g.repo_dir
destination (slack s) = hook s.webhook_url

-- The destination that an entry of a configuration names.
abbrev pub requested : String × Map String → Destination
requested (manager_type, config) =
    if manager_type == type_prometheus
    then alertmanager (get "" "prometheusAddress" config ++ "/api/v1/alerts")
    else if manager_type == type_git_ops
    then repository (get "" "repoDir" config)
    else hook (get "" "webhookURL" config)

IsFor-destination :
    (e : String × Map String) (m : AlertManager) → IsFor e m → destination m ≡ requested e
IsFor-destination (t, config) (prometheus p) h = rw h.0 (rw h.1)
IsFor-destination (t, config) (git_ops g) h = rw h.0 (rw h.1)
IsFor-destination (t, config) (slack s) h = rw h.0 (rw h.1)

AreFor-destinations :
    (es : Map (Map String)) (ms : List AlertManager)
    → AreFor es ms
    → map destination ms ≡ map requested es
AreFor-destinations [] [] h = refl
AreFor-destinations (e ∷ es) (m ∷ ms) (h, hs) =
    ground (arith, IsFor-destination e m h, AreFor-destinations es ms hs)
AreFor-destinations [] (m ∷ ms) h = absurd h
AreFor-destinations (e ∷ es) [] h = absurd h

-- After a success, the subscribers' destinations are those of the configuration, whatever the
-- order in which the map was visited.
pub destinations-perm :
    (new_client : String → Failure) (config visited : Map (Map String)) (w : World)
    (s : AlertService)
    → Perm visited config
    → (new_alert_service new_client visited w).0 ≡ ok s
    → Perm (map destination (subscribers_of topic_alerts s.pubsub)) (map requested config)
destinations-perm new_client config visited w s p e =
    let (are_for, others) = new_alert_service-subscribes new_client visited w s e in
    subst (λ ds. Perm ds (map requested config)) (sym (AreFor-destinations visited _ are_for))
      (Perm.map requested p)

module _ {ℓ κ} {A : Type ℓ} (P : A → Type κ) where
  pub All-Permᴰ : {xs ys : List A} → Permᴰ xs ys → All P xs → All P ys
  All-Permᴰ Permᴰ.nil h = h
  All-Permᴰ (Permᴰ.cons e p) (h, hs) = (subst P e h, All-Permᴰ p hs)
  All-Permᴰ (Permᴰ.swap e e') (h, (k, hs)) = (subst P e' k, (subst P e h, hs))
  All-Permᴰ (Permᴰ.trans p q) h = All-Permᴰ q (All-Permᴰ p h)
