-- ===== src/Alert/Delivery.antt =====
-- What the goroutines of one or more `Publish` calls do, in whatever order they run.
use climatik_project.Prelude.{
  some, List, [], ◌∷◌, ◌++◌, ◌≡◌, refl, sym, arith, nat_eq_refl, eq_iff, All, subst, map,
}
use climatik_project.Go.Map.{lookup, get, lookup-insert, lookup-insert_self}
use climatik_project.Go.Client.{Client}
use climatik_project.Go.Float.{Float}
use climatik_project.Alert.World.{World, AlertArgs}
use climatik_project.Alert.Prometheus
use climatik_project.Alert.Slack
use climatik_project.Alert.GitOps
use climatik_project.Alert.Prometheus.{PrometheusAlertManager}
use climatik_project.Alert.Slack.{SlackAlertManager}
use climatik_project.Alert.GitOps.{GitOpsAlertManager, alert_file, format_alert_message}
use climatik_project.Alert.Manager.{AlertManager, prometheus, git_ops, slack, create_alert}
use climatik_project.Alert.PubSub.{Task, publish}
use climatik_project.Alert.Service.{AlertService, send_alert, topic_alerts}

module _ (f : Float) (c : Client) where
  -- The world after one goroutine: the result of `CreateAlert` is dropped by `go`.
  unfoldable pub run_task : Task → World → World
  run_task t w = (create_alert f c t.manager t.args w).1

  -- A run of all the goroutines: the scheduler takes any that is left.
  pub data Runs : List Task → World → World → Type 0 where
    done : {w : World} → Runs [] w w
    next :
        {tasks : List Task} {w w' : World} (before : List Task) (t : Task) (after : List Task)
        → tasks ≡ before ++ t ∷ after
        → Runs (before ++ after) (run_task t w) w'
        → Runs tasks w w'

-- The message of the arguments is in the store of a GitOps manager, under the pod's file; the
-- other managers keep nothing.
abbrev pub IsStored : Client → World → AlertArgs → AlertManager → Type 0
IsStored c w a (git_ops g) =
    lookup (alert_file g.repo_dir a.pod_name) (w.stores g.alerts)
    ≡ some (format_alert_message c.now a.pod_name a.power_cap_value a.devices)
IsStored c w a _ = Unit

pub prometheus_stores :
    (c : Client) (p : PrometheusAlertManager) (a : AlertArgs) (w : World)
    → (Prometheus.create_alert c p a w).1.stores ≡ w.stores
unfolding Prometheus.create_alert
prometheus_stores c p a w = ground arith

pub slack_stores :
    (f : Float) (c : Client) (s : SlackAlertManager) (a : AlertArgs) (w : World)
    → (Slack.create_alert f c s a w).1.stores ≡ w.stores
unfolding Slack.create_alert
slack_stores f c s a w = ground arith

git_ops_keeps :
    (c : Client) (g h : GitOpsAlertManager) (a : AlertArgs) (w : World)
    → IsStored c w a (git_ops g)
    → IsStored c (GitOps.create_alert c.now h a w).1 a (git_ops g)
unfolding GitOps.create_alert
git_ops_keeps c g h a w kept =
    let message = format_alert_message c.now a.pod_name a.power_cap_value a.devices in
    let own = alert_file g.repo_dir a.pod_name in
    let other = alert_file h.repo_dir a.pod_name in
    ground (arith, lookup-insert other own message (w.stores h.alerts), eq_iff other own)

create_alert-keeps :
    (f : Float) (c : Client) (g : GitOpsAlertManager) (m : AlertManager) (a : AlertArgs) (w : World)
    → IsStored c w a (git_ops g)
    → IsStored c (create_alert f c m a w).1 a (git_ops g)
create_alert-keeps f c g (prometheus p) a w kept =
    unfold create_alert in rw (prometheus_stores c p a w) kept
create_alert-keeps f c g (git_ops h) a w kept = unfold create_alert in git_ops_keeps c g h a w kept
create_alert-keeps f c g (slack s) a w kept =
    unfold create_alert in rw (slack_stores f c s a w) kept

pub create_alert-stores :
    (f : Float) (c : Client) (m : AlertManager) (a : AlertArgs) (w : World)
    → IsStored c (create_alert f c m a w).1 a m
create_alert-stores f c (prometheus p) a w = tt
create_alert-stores f c (git_ops g) a w =
    unfold create_alert GitOps.create_alert in
    rw (nat_eq_refl g.alerts)
      (lookup-insert_self (alert_file g.repo_dir a.pod_name) _ (w.stores g.alerts))
create_alert-stores f c (slack s) a w = tt

create_alert-IsStored :
    (f : Float) (c : Client) (m n : AlertManager) (a : AlertArgs) (w : World)
    → IsStored c w a m
    → IsStored c (create_alert f c n a w).1 a m
create_alert-IsStored f c (prometheus p) n a w h = tt
create_alert-IsStored f c (git_ops g) n a w h = create_alert-keeps f c g n a w h
create_alert-IsStored f c (slack s) n a w h = tt

module _ {ℓ κ} {A : Type ℓ} (P : A → Type κ) where
  pub All-split : (xs ys : List A) {y : A} → All P (xs ++ y ∷ ys) → P y × All P (xs ++ ys)
  All-split [] ys h = h
  All-split (x ∷ xs) ys (p, h) = let (q, r) = All-split xs ys h in (q, (p, r))

  All-insert : (xs ys : List A) {y : A} → P y → All P (xs ++ ys) → All P (xs ++ y ∷ ys)
  All-insert [] ys q h = (q, h)
  All-insert (x ∷ xs) ys q (p, h) = (p, All-insert xs ys q h)

-- The goroutines of one `Publish` have its arguments.
abbrev pub Carries : AlertArgs → Task → Type 0
Carries a t = t.args ≡ a

run_task-IsStored :
    (f : Float) (c : Client) (m : AlertManager) (a : AlertArgs) (t : Task) (w : World)
    → Carries a t
    → IsStored c w a m
    → IsStored c (run_task f c t w) a m
unfolding run_task
run_task-IsStored f c m a t w e h =
    subst (λ b. IsStored c (create_alert f c t.manager b w).1 a m) (sym e)
      (create_alert-IsStored f c m t.manager a w h)

run_task-stores :
    (f : Float) (c : Client) (a : AlertArgs) (t : Task) (w : World)
    → Carries a t
    → IsStored c (run_task f c t w) a t.manager
unfolding run_task
run_task-stores f c a t w e =
    subst (λ b. IsStored c (create_alert f c t.manager b w).1 a t.manager) (sym e)
      (create_alert-stores f c t.manager a w)

Runs-IsStored :
    {f : Float} {c : Client} {tasks : List Task} {w w' : World} (m : AlertManager) (a : AlertArgs)
    → All (Carries a) tasks
    → Runs f c tasks w w'
    → IsStored c w a m
    → IsStored c w' a m
Runs-IsStored m a all done h = h
Runs-IsStored {f} {c} {w} m a all (next before t after e r) h =
    let (own, others) = All-split (Carries a) before after (subst (All (Carries a)) e all) in
    Runs-IsStored m a others r (run_task-IsStored f c m a t w own h)

-- Whatever the order in which the goroutines of one `Publish` run: when all have run, every
-- GitOps manager among the subscribers holds the message of the alert under the pod's file.
pub Runs-stores-All :
    {f : Float} {c : Client} {tasks : List Task} {w w' : World} (a : AlertArgs)
    → All (Carries a) tasks
    → Runs f c tasks w w'
    → All (λ t. IsStored c w' a t.manager) tasks
Runs-stores-All a all done = tt
Runs-stores-All {f} {c} {w} {w'} a all (next before t after e r) =
    let (own, others) = All-split (Carries a) before after (subst (All (Carries a)) e all) in
    subst (All (λ t. IsStored c w' a t.manager)) (sym e) (
      All-insert (λ t. IsStored c w' a t.manager) before after
        (Runs-IsStored t.manager a others r (run_task-stores f c a t w own))
        (Runs-stores-All a others r))

pub publish-Carries :
    (a : AlertArgs) (ms : List AlertManager)
    → All (Carries a) (map (λ m. record { manager = m; args = a }) ms)
publish-Carries a [] = tt
publish-Carries a (m ∷ ms) = (refl, publish-Carries a ms)

All-tasks :
    (P : AlertManager → Type 0) (a : AlertArgs) (ms : List AlertManager)
    → All (λ (t : Task). P t.manager) (map (λ m. record { manager = m; args = a }) ms)
    → All P ms
All-tasks P a [] h = tt
All-tasks P a (m ∷ ms) (p, h) = (p, All-tasks P a ms h)

-- `SendAlert`, and then all its goroutines in whatever order: every GitOps manager among the
-- subscribers of "alerts" holds the message of this alert under the pod's file.
pub send_alert_delivers :
    (f : Float) (c : Client) (a : AlertArgs) (s : AlertService) (w w' : World)
    → Runs f c (send_alert a s) w w'
    → All (IsStored c w' a) (get [] topic_alerts s.pubsub.subscribers)
unfolding send_alert publish
send_alert_delivers f c a s w w' r =
    let ms = get [] topic_alerts s.pubsub.subscribers in
    All-tasks (IsStored c w' a) a ms (Runs-stores-All a (publish-Carries a ms) r)
