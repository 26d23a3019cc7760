-- ===== src/Alert/Progress.antt =====
-- That the goroutines of `SendAlert` get to their end from wherever the scheduler has stopped them.
use climatik_project.Prelude.{
  ℕ, ◌+◌, List, [], ◌∷◌, ◌++◌, map, length, ◌≡◌, refl, ap, ◌∙◌, arith, All,
}
use climatik_project.Go.Map.{get}
use climatik_project.Go.Client.{Client}
use climatik_project.Go.Float.{Float}
use climatik_project.Alert.World.{World, AlertArgs}
use climatik_project.Alert.Manager.{AlertManager}
use climatik_project.Alert.PubSub.{Task, publish}
use climatik_project.Alert.Service.{AlertService, send_alert, topic_alerts}
use climatik_project.Alert.Delivery.{Runs, done, next, run_task, IsStored, send_alert_delivers}

module _ (f : Float) (c : Client) (tasks : List Task) (w : World) where
  -- So many of the tasks have run, and the others are left.
  pub data Steps : ℕ → List Task → World → Type 0 where
    start : Steps 0 tasks w
    step :
        {n : ℕ} {rest : List Task} {w' : World} (before : List Task) (t : Task) (after : List Task)
        → rest ≡ before ++ t ∷ after
        → Steps n rest w'
        → Steps (n + 1) (before ++ after) (run_task f c t w')

length-insert :
    (before : List Task) (t : Task) (after : List Task)
    → length (before ++ t ∷ after) ≡ length (before ++ after) + 1
length-insert [] t after = omega arith
length-insert (b ∷ before) t after = omega (arith, length-insert before t after)

-- No schedule takes more steps than there are goroutines.
Steps-count :
    {f : Float} {c : Client} {tasks : List Task} {w : World} {n : ℕ} {rest : List Task} {w' : World}
    → Steps f c tasks w n rest w'
    → n + length rest ≡ length tasks
Steps-count start = omega arith
Steps-count (step before t after e s) =
    omega (arith, Steps-count s, ap length e, length-insert before t after)

-- The goroutines that are left, in the order of their start.
run_all :
    (f : Float) (c : Client) (rest : List Task) (w : World) → (w' : World) × Runs f c rest w w'
run_all f c [] w = (w, done)
run_all f c (t ∷ rest) w =
    let (w', r) = run_all f c rest (run_task f c t w) in (w', next [] t rest refl r)

-- What has run and what then runs is one run.
Steps-Runs :
    {f : Float} {c : Client} {tasks : List Task} {w : World} {n : ℕ} {rest : List Task}
    {w' w'' : World}
    → Steps f c tasks w n rest w'
    → Runs f c rest w' w''
    → Runs f c tasks w w''
Steps-Runs start r = r
Steps-Runs (step before t after e s) r = Steps-Runs s (next before t after e r)

pub length-publish :
    (a : AlertArgs) (ms : List AlertManager)
    → length {A = Task} (map (λ m. record { manager = m; args = a }) ms) ≡ length ms
length-publish a [] = refl
length-publish a (m ∷ ms) = omega (arith, length-publish a ms)

-- Wherever the scheduler has stopped the goroutines of a `SendAlert`, as many are left as the
-- topic "alerts" has subscribers, less those that have run; the rest can run to its end, and then
-- every GitOps manager among the subscribers holds the message of the alert under the pod's file.
pub send_alert_completes :
    (f : Float) (c : Client) (a : AlertArgs) (s : AlertService) (w : World) (n : ℕ)
    (rest : List Task) (w' : World)
    → Steps f c (send_alert a s) w n rest w'
    → (n + length rest ≡ length (get [] topic_alerts s.pubsub.subscribers))
      × ((w'' : World) × Runs f c rest w' w''
          × All (IsStored c w'' a) (get [] topic_alerts s.pubsub.subscribers))
send_alert_completes f c a s w n rest w' steps =
    let (w'', r) = run_all f c rest w' in
    (
      Steps-count steps ∙ (unfold send_alert publish in length-publish a _),
      (w'', r, send_alert_delivers f c a s w w'' (Steps-Runs steps r)),
    )
