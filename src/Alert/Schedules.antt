-- ===== src/Alert/Schedules.antt =====
-- What every schedule of the goroutines of one `SendAlert` leaves in the stores, and that every
-- schedule comes to its end.
use climatik_project.Prelude.{
  ℕ, nat_eq, Option, some, List, [], ◌∷◌, ◌++◌, map, ◌≡◌, refl, sym, ap, ◌∙◌, arith, ◌==◌, ◌||◌,
  ◌&&◌, Bool, false, String, if◌then◌else◌, All, subst,
}
use climatik_project.Go.Map.{get, lookup, lookup-insert}
use climatik_project.Go.Client.{Client}
use climatik_project.Go.Float.{Float}
use climatik_project.Alert.World.{World, AlertArgs}
use climatik_project.Alert.GitOps
use climatik_project.Alert.GitOps.{GitOpsAlertManager, alert_file, format_alert_message}
use climatik_project.Alert.Manager.{AlertManager, prometheus, git_ops, slack, create_alert}
use climatik_project.Alert.PubSub.{Task, publish}
use climatik_project.Alert.Service.{AlertService, send_alert, topic_alerts}
use climatik_project.Alert.Delivery.{
  Runs, done, next, run_task, Carries, prometheus_stores, slack_stores, All-split, publish-Carries,
}

-- The manager writes the alert of the pod under the key of the store.
abbrev pub writes : String → ℕ → String → AlertManager → Bool
writes pod_name i key (git_ops g) = nat_eq g.alerts i && (alert_file g.repo_dir pod_name == key)
writes pod_name i key (prometheus p) = false
writes pod_name i key (slack s) = false

abbrev pub any_writes : String → ℕ → String → List AlertManager → Bool
any_writes pod_name i key [] = false
any_writes pod_name i key (m ∷ ms) = writes pod_name i key m || any_writes pod_name i key ms

-- What the store should hold under the key after an alert: its message if one of the managers
-- writes it there, and what was there before if none does.
abbrev pub text_after : Client → AlertArgs → List AlertManager → World → ℕ → String → Option String
text_after c a ms w i key =
    if any_writes a.pod_name i key ms
    then some (format_alert_message c.now a.pod_name a.power_cap_value a.devices)
    else lookup key (w.stores i)

git_ops_text :
    (c : Client) (g : GitOpsAlertManager) (a : AlertArgs) (w : World) (i : ℕ) (key : String)
    → lookup key ((GitOps.create_alert c.now g a w).1.stores i)
      ≡ text_after c a (git_ops g ∷ []) w i key
unfolding GitOps.create_alert
git_ops_text c g a w i key =
    let message = format_alert_message c.now a.pod_name a.power_cap_value a.devices in
    ground (arith, lookup-insert (alert_file g.repo_dir a.pod_name) key message (w.stores g.alerts))

create_alert-text :
    (f : Float) (c : Client) (m : AlertManager) (a : AlertArgs) (w : World) (i : ℕ) (key : String)
    → lookup key ((create_alert f c m a w).1.stores i) ≡ text_after c a (m ∷ []) w i key
unfolding create_alert
create_alert-text f c (prometheus p) a w i key = rw (prometheus_stores c p a w) refl
create_alert-text f c (git_ops g) a w i key = git_ops_text c g a w i key
create_alert-text f c (slack s) a w i key = rw (slack_stores f c s a w) refl

run_task-text :
    (f : Float) (c : Client) (a : AlertArgs) (t : Task) (w : World) (i : ℕ) (key : String)
    → Carries a t
    → lookup key ((run_task f c t w).stores i) ≡ text_after c a (t.manager ∷ []) w i key
unfolding run_task
run_task-text f c a t w i key e =
    subst
      (λ b.
        lookup key ((create_alert f c t.manager b w).1.stores i)
        ≡ text_after c a (t.manager ∷ []) w i key)
      (sym e) (create_alert-text f c t.manager a w i key)

abbrev managers : List Task → List AlertManager
managers [] = []
managers (t ∷ ts) = t.manager ∷ managers ts

any_writes-insert :
    (pod_name : String) (i : ℕ) (key : String) (before : List Task) (t : Task) (after : List Task)
    → any_writes pod_name i key (managers (before ++ t ∷ after))
      ≡ (writes pod_name i key t.manager || any_writes pod_name i key (managers (before ++ after)))
any_writes-insert pod_name i key [] t after = refl
any_writes-insert pod_name i key (b ∷ before) t after =
    ground (arith, any_writes-insert pod_name i key before t after)

Runs-text :
    {f : Float} {c : Client} {tasks : List Task} {w w' : World} (a : AlertArgs) (i : ℕ)
    (key : String)
    → All (Carries a) tasks
    → Runs f c tasks w w'
    → lookup key (w'.stores i) ≡ text_after c a (managers tasks) w i key
Runs-text a i key all done = refl
Runs-text {f} {c} {tasks} {w} a i key all (next before t after e r) =
    let (own, others) = All-split (Carries a) before after (subst (All (Carries a)) e all) in
    ground (
      arith,
      Runs-text a i key others r,
      run_task-text f c a t w i key own,
      any_writes-insert a.pod_name i key before t after,
      ap (λ ts. any_writes a.pod_name i key (managers ts)) e,
    )

managers-publish :
    (a : AlertArgs) (ms : List AlertManager)
    → managers (map (λ m. record { manager = m; args = a }) ms) ≡ ms
managers-publish a [] = refl
managers-publish a (m ∷ ms) = ap (λ l. m ∷ l) (managers-publish a ms)

-- `SendAlert`, and then all its goroutines in whatever order: every store holds under every key
-- the message of the alert if a GitOps manager among the subscribers keeps the pod's file there,
-- and otherwise what it held before.
pub send_alert_text :
    (f : Float) (c : Client) (a : AlertArgs) (s : AlertService) (w w' : World)
    → Runs f c (send_alert a s) w w'
    → (i : ℕ) (key : String)
    → lookup key (w'.stores i) ≡ text_after c a (get [] topic_alerts s.pubsub.subscribers) w i key
unfolding send_alert publish
send_alert_text f c a s w w' r i key =
    let ms = get [] topic_alerts s.pubsub.subscribers in
    Runs-text a i key (publish-Carries a ms) r
    ∙ ap (λ l. text_after c a l w i key) (managers-publish a ms)
