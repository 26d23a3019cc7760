-- ===== src/Alert/Service.antt =====
-- internal/alert/factory.go (CreateAlertService) and internal/alert/service.go
use climatik_project.Prelude.{String, List, [], ◌∷◌}
use climatik_project.Go.Result.{Result, ok, err, Failure}
use climatik_project.Go.Map.{Map}
use climatik_project.Go.Text.{concat}
use climatik_project.Alert.World.{World, AlertArgs}
use climatik_project.Alert.Manager.{new_alert_manager}
use climatik_project.Alert.PubSub.{PubSub, new_pub_sub, subscribe, Task, publish}

abbrev pub topic_alerts : String
topic_alerts = "alerts"

-- The loop over the configuration, in the order in which the map is visited.
unfoldable pub subscribe_all :
    (String → Failure) → Map (Map String) → PubSub → World → Result PubSub × World
subscribe_all new_client [] ps w = (ok ps, w)
subscribe_all new_client ((manager_type, config) ∷ rest) ps w =
    let (r, w') = new_alert_manager new_client manager_type config w in
    elim r [
      | err e ↦
          (err (concat ("failed to create alert manager " ∷ manager_type ∷ ": " ∷ e ∷ [])), w')
      | ok m ↦ subscribe_all new_client rest (subscribe topic_alerts m ps) w'
    ]

-- `CreateAlertService`
unfoldable pub create_alert_service :
    (String → Failure) → Map (Map String) → World → Result PubSub × World
create_alert_service new_client config w = subscribe_all new_client config new_pub_sub w

pub record AlertService : Type 0 where
  pub pubsub : PubSub

abbrev pub with_service : Result PubSub × World → Result AlertService × World
with_service (err e, w) = (err e, w)
with_service (ok ps, w) = (ok (record { pubsub = ps }), w)

-- `NewAlertService`
unfoldable pub new_alert_service :
    (String → Failure) → Map (Map String) → World → Result AlertService × World
new_alert_service new_client config w = with_service (create_alert_service new_client config w)

-- `SendAlert` returns nil whatever becomes of the goroutines that it starts.
unfoldable pub send_alert : AlertArgs → AlertService → List Task
send_alert a s = publish topic_alerts a s.pubsub
