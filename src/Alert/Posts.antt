-- ===== src/Alert/Posts.antt =====
-- Which requests the goroutines send, in whatever order they run.
use mathlib.Core.List.{
  Perm, perm_append_comm, perm-append_left_iff, perm-append_right_iff, append_assoc,
}
use mathlib.Core.List.Perm
use climatik_project.Prelude.{String, none, some, List, [], ◌∷◌, ◌++◌, ◌≡◌, refl, sym, arith, subst}
use climatik_project.Go.Result.{ok, err}
use climatik_project.Go.Http.{Post}
use climatik_project.Go.Json.{Json}
use climatik_project.Go.Client.{Client}
use climatik_project.Go.Float.{Float}
use climatik_project.Alert.World.{World, AlertArgs}
use climatik_project.Alert.Prometheus
use climatik_project.Alert.Prometheus.{PrometheusAlertManager, alert_json, format_prometheus_alert}
use climatik_project.Alert.Slack
use climatik_project.Alert.Slack.{SlackAlertManager, webhook_payload, new_slack_alert}
use climatik_project.Alert.GitOps
use climatik_project.Alert.Manager.{AlertManager, prometheus, git_ops, slack, create_alert}
use climatik_project.Alert.PubSub.{Task}
use climatik_project.Alert.Delivery.{run_task, Runs, done, next}

-- A request with the marshalled body, if marshalling succeeds.
abbrev pub posts_json : Client → String → Json → List Post
posts_json c url body = elim (c.marshal body) [
  | err e ↦ []
  | ok text ↦ record { url = url; content_type = "application/json"; body = text } ∷ []
]

-- The requests that one call of `CreateAlert` should send: the Prometheus manager one to its
-- Alertmanager URL if that parses, the Slack manager one to its webhook, the GitOps manager none.
abbrev pub posts_of : Float → Client → AlertManager → AlertArgs → List Post
posts_of f c (prometheus p) a = elim (c.new_request p.alertmanager_url) [
  | some e ↦ []
  | none ↦
      posts_json c p.alertmanager_url
        (alert_json (format_prometheus_alert c.now a.pod_name a.power_cap_value a.devices))
]
posts_of f c (git_ops g) a = []
posts_of f c (slack s) a =
    posts_json c s.webhook_url (webhook_payload f (new_slack_alert f c.now a))

create_alert-sent :
    (f : Float) (c : Client) (m : AlertManager) (a : AlertArgs) (w : World)
    → (create_alert f c m a w).1.sent ≡ posts_of f c m a ++ w.sent
unfolding create_alert
create_alert-sent f c (prometheus p) a w = unfold Prometheus.create_alert in ground arith
create_alert-sent f c (git_ops g) a w = unfold GitOps.create_alert in refl
create_alert-sent f c (slack s) a w = unfold Slack.create_alert in ground arith

abbrev pub all_posts : Float → Client → List Task → List Post
all_posts f c [] = []
all_posts f c (t ∷ tasks) = posts_of f c t.manager t.args ++ all_posts f c tasks

perm-exchange {ℓ} : {A : Type ℓ} (xs ys zs : List A) → Perm (xs ++ (ys ++ zs)) (ys ++ (xs ++ zs))
perm-exchange xs ys zs =
    subst (λ l. Perm l (ys ++ (xs ++ zs))) (append_assoc xs ys zs)
      (subst (Perm ((xs ++ ys) ++ zs)) (append_assoc ys xs zs)
        ((perm-append_right_iff zs).1 (perm_append_comm xs ys)))

all_posts-insert :
    (f : Float) (c : Client) (before : List Task) (t : Task) (after : List Task)
    → Perm
        (all_posts f c (before ++ t ∷ after))
        (posts_of f c t.manager t.args ++ all_posts f c (before ++ after))
all_posts-insert f c [] t after = Perm.refl _
all_posts-insert f c (b ∷ before) t after =
    Perm.trans
      ((perm-append_left_iff (posts_of f c b.manager b.args)).1
        (all_posts-insert f c before t after))
      (perm-exchange (posts_of f c b.manager b.args) (posts_of f c t.manager t.args) _)

run_task-sent :
    (f : Float) (c : Client) (t : Task) (w : World)
    → (run_task f c t w).sent ≡ posts_of f c t.manager t.args ++ w.sent
unfolding run_task
run_task-sent f c t w = create_alert-sent f c t.manager t.args w

-- Whatever the order in which the goroutines run: when all have run, the requests sent are those
-- sent before and one set for each goroutine, nothing twice and nothing lost.
pub Runs-sent :
    {f : Float} {c : Client} {tasks : List Task} {w w' : World}
    → Runs f c tasks w w'
    → Perm w'.sent (all_posts f c tasks ++ w.sent)
Runs-sent {w} done = Perm.refl w.sent
Runs-sent {f} {c} {w} {w'} (next before t after e r) =
    let own = posts_of f c t.manager t.args in
    let others = all_posts f c (before ++ after) in
    let later = subst (λ s. Perm w'.sent (others ++ s)) (run_task-sent f c t w) (Runs-sent r) in
    let front = Perm.trans later (perm-exchange others own w.sent) in
    let grouped = subst (Perm w'.sent) (sym (append_assoc own others w.sent)) front in
    let inserted =
      (perm-append_right_iff w.sent).1 (Perm.symm (all_posts-insert f c before t after)) in
    subst (λ ts. Perm w'.sent (all_posts f c ts ++ w.sent)) (sym e) (Perm.trans grouped inserted)
