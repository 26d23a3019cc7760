-- ===== src/Alert/PubSub.antt =====
-- internal/alert/pubsub.go: topics with their subscribers. `Publish` starts one goroutine for each
-- subscriber and does not wait; a goroutine is a call of `CreateAlert` that is still to run.
use climatik_project.Prelude.{String, List, [], ◌∷◌, ◌++◌, map}
use climatik_project.Go.Map.{Map, get, insert}
use climatik_project.Alert.World.{AlertArgs}
use climatik_project.Alert.Manager.{AlertManager}

pub record PubSub : Type 0 where
  pub subscribers : Map (List AlertManager)

abbrev pub new_pub_sub : PubSub
new_pub_sub = record { subscribers = [] }

unfoldable pub subscribe : String → AlertManager → PubSub → PubSub
subscribe topic subscriber ps = record {
  subscribers = insert topic (get [] topic ps.subscribers ++ subscriber ∷ []) ps.subscribers;
}

pub record Task : Type 0 where
  pub manager : AlertManager
  pub args : AlertArgs

-- The goroutines that `Publish` starts, in the order of their start.
unfoldable pub publish : String → AlertArgs → PubSub → List Task
publish topic a ps = map (λ m. record { manager = m; args = a }) (get [] topic ps.subscribers)
