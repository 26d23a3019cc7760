-- ===== src/Alert/Examples/Orders.antt =====
-- The theorems on the goroutines of one alert, and of two, at a GitOps and a Slack manager.
use mathlib.Core.List.{Perm}
use climatik_project.Prelude.{◌+◌, length, List, [], ◌∷◌, ◌++◌, ◌≡◌, refl, All}
use climatik_project.Go.Map.{get, lookup}
use climatik_project.Go.Float.Whole.{whole}
use climatik_project.Alert.World.{World}
use climatik_project.Alert.Manager.{AlertManager, git_ops, slack}
use climatik_project.Alert.PubSub.{Task, publish}
use climatik_project.Alert.Service.{send_alert, topic_alerts}
use climatik_project.Alert.Fixtures.{
  example_client, example_slack, empty_world, example_git_ops, example_service, example_args,
  example_config, accepting_client, subscribed, new_service_ok,
}
use climatik_project.Alert.Delivery.{Runs, done, next, run_task, IsStored}
use climatik_project.Alert.Schedules.{text_after, send_alert_text}
use climatik_project.Alert.Progress.{Steps, start, step, send_alert_completes}
use climatik_project.Alert.Races.{
  Goroutine, Reaches, enter, here, all_started, IsRace, waiting, calling, finished, in_phase,
  send_alert_exclusive,
}
use climatik_project.Alert.Posts.{all_posts, Runs-sent}

abbrev task_of : AlertManager → Task
task_of m = record { manager = m; args = example_args }

abbrev example_tasks : List Task
example_tasks = task_of (git_ops example_git_ops) ∷ task_of (slack example_slack) ∷ []

-- The Slack goroutine runs before the GitOps one.
abbrev final_world : World
final_world =
    run_task whole example_client (task_of (git_ops example_git_ops))
      (run_task whole example_client (task_of (slack example_slack)) empty_world)

slack_first : Runs whole example_client example_tasks empty_world final_world
slack_first =
    next (task_of (git_ops example_git_ops) ∷ []) (task_of (slack example_slack)) [] refl
      (next [] (task_of (git_ops example_git_ops)) [] refl done)

slack_first_of_send :
    Runs whole example_client (send_alert example_args example_service) empty_world final_world
unfolding send_alert publish get lookup
slack_first_of_send = slack_first

send_alert_text_example :
    lookup "/repo/alerts/web-alert.yaml" (final_world.stores 0)
    ≡ text_after example_client example_args
        (get [] topic_alerts example_service.pubsub.subscribers)
        empty_world
        0
        "/repo/alerts/web-alert.yaml"
send_alert_text_example =
    send_alert_text whole example_client example_args example_service empty_world final_world
      slack_first_of_send 0 "/repo/alerts/web-alert.yaml"

abbrev git_ops_left : List Task
git_ops_left = task_of (git_ops example_git_ops) ∷ []

abbrev slack_done : World
slack_done = run_task whole example_client (task_of (slack example_slack)) empty_world

slack_done_of_send :
    Steps whole example_client
      (send_alert example_args example_service)
      empty_world
      1
      git_ops_left
      slack_done
unfolding send_alert publish get lookup
slack_done_of_send = step git_ops_left (task_of (slack example_slack)) [] refl start

send_alert_completes_example :
    (1 + length git_ops_left ≡ length (get [] topic_alerts example_service.pubsub.subscribers))
    × ((w'' : World) × Runs whole example_client git_ops_left slack_done w''
        × All
            (IsStored example_client w'' example_args)
            (get [] topic_alerts example_service.pubsub.subscribers))
send_alert_completes_example =
    send_alert_completes whole example_client example_args example_service empty_world 1
      git_ops_left slack_done slack_done_of_send

Runs-sent_example :
    Perm final_world.sent (all_posts whole example_client example_tasks ++ empty_world.sent)
Runs-sent_example =
    Runs-sent {f = whole} {c = example_client} {tasks = example_tasks} {w = empty_world}
      {w' = final_world} slack_first

-- Both goroutines of one alert have begun their calls.
abbrev both_calling : List Goroutine
both_calling =
    in_phase calling (task_of (slack example_slack))
    ∷ in_phase calling (task_of (git_ops example_git_ops))
    ∷ []

both_calling_of_send :
    Reaches whole example_client
      (all_started (send_alert example_args subscribed))
      empty_world
      both_calling
      empty_world
unfolding send_alert publish get lookup
both_calling_of_send =
    enter [] (task_of (slack example_slack))
      (in_phase waiting (task_of (git_ops example_git_ops)) ∷ []) refl
      (enter (in_phase calling (task_of (slack example_slack)) ∷ [])
        (task_of (git_ops example_git_ops)) [] refl here)

send_alert_exclusive_example : ¬ IsRace whole example_client both_calling
send_alert_exclusive_example =
    send_alert_exclusive whole example_client accepting_client example_config empty_world subscribed
      example_args both_calling empty_world empty_world new_service_ok both_calling_of_send

-- The call of Slack begins first and ends last.
abbrev overlapped_world : World
overlapped_world =
    run_task whole example_client (task_of (slack example_slack))
      (run_task whole example_client (task_of (git_ops example_git_ops)) empty_world)

abbrev both_finished : List Goroutine
both_finished =
    in_phase finished (task_of (slack example_slack))
    ∷ in_phase finished (task_of (git_ops example_git_ops))
    ∷ []
