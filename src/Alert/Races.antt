-- ===== src/Alert/Races.antt =====
-- Goroutines that are inside calls of `CreateAlert` at the same moment, which nothing in the code
-- prevents: here a call begins in one step and ends in another.
pub mod Pairs
pub mod Overlaps
use climatik_project.Prelude.{
  ℕ, List, [], ◌∷◌, ◌++◌, map, ◌≡◌, ◌≢◌, refl, sym, ap, ◌∙◌, arith, All, subst, String,
}
use climatik_project.Go.Result.{ok, Failure}
use climatik_project.Go.Map.{Map, get, lookup}
use climatik_project.Go.Client.{Client}
use climatik_project.Go.Float.{Float}
use climatik_project.Alert.GitOps
use climatik_project.Alert.Manager
use climatik_project.Alert.World.{World, AlertArgs}
use climatik_project.Alert.GitOps.{GitOpsAlertManager}
use climatik_project.Alert.Manager.{AlertManager, prometheus, git_ops, slack}
use climatik_project.Alert.PubSub.{Task, publish}
use climatik_project.Alert.Service.{AlertService, send_alert, new_alert_service, topic_alerts}
use climatik_project.Alert.Delivery.{run_task, prometheus_stores, slack_stores}
use climatik_project.Alert.Setup.{subscribers_of}
use climatik_project.Alert.Maps.{AreApart, Apart, new_alert_service-AreApart}

pub data Phase : Type 0 where
  waiting calling finished : Phase

pub record Goroutine : Type 0 where
  pub task : Task
  pub phase : Phase

abbrev pub in_phase : Phase → Task → Goroutine
in_phase phase t = record { task = t; phase = phase }

module _ (f : Float) (c : Client) where
  -- What the scheduler can do: any waiting goroutine begins its call of `CreateAlert`, any call
  -- that has begun ends. A call has its effect on the world when it ends.
  pub data Reaches : List Goroutine → World → List Goroutine → World → Type 0 where
    here : {gs : List Goroutine} {w : World} → Reaches gs w gs w
    enter :
        {gs gs' : List Goroutine} {w w' : World} (before : List Goroutine) (t : Task)
        (after : List Goroutine)
        → gs ≡ before ++ in_phase waiting t ∷ after
        → Reaches (before ++ in_phase calling t ∷ after) w gs' w'
        → Reaches gs w gs' w'
    leave :
        {gs gs' : List Goroutine} {w w' : World} (before : List Goroutine) (t : Task)
        (after : List Goroutine)
        → gs ≡ before ++ in_phase calling t ∷ after
        → Reaches (before ++ in_phase finished t ∷ after) (run_task f c t w) gs' w'
        → Reaches gs w gs' w'

-- The goroutines as `Publish` starts them.
abbrev pub all_started : List Task → List Goroutine
all_started [] = []
all_started (t ∷ ts) = in_phase waiting t ∷ all_started ts

abbrev pub Uses : ℕ → AlertManager → Type 0
Uses i (git_ops g) = g.alerts ≡ i
Uses i _ = ⊥

changes-Uses :
    (f : Float) (c : Client) (i : ℕ) (m : AlertManager) (a : AlertArgs) (w : World) (key : String)
    → lookup key ((Manager.create_alert f c m a w).1.stores i) ≢ lookup key (w.stores i)
    → Uses i m
unfolding Manager.create_alert GitOps.create_alert
changes-Uses f c i (prometheus p) a w key changed =
    changed (ap (λ (stores : ℕ → Map String). lookup key (stores i)) (prometheus_stores c p a w))
changes-Uses f c i (git_ops g) a w key changed = ground arith
changes-Uses f c i (slack s) a w key changed =
    changed (ap (λ (stores : ℕ → Map String). lookup key (stores i)) (slack_stores f c s a w))

module _ (f : Float) (c : Client) where
  -- From some world the call of the goroutine changes what the map has under some key.
  abbrev pub Writes : ℕ → Task → Type 0
  Writes i t =
      (w : World) × (key : String) × (lookup key ((run_task f c t w).stores i)
        ≢ lookup key (w.stores i))

  -- The goroutine is inside a call that writes the map.
  abbrev pub WritesMap : ℕ → Goroutine → Type 0
  WritesMap i g = (g.phase ≡ calling) × Writes i g.task

  -- Two goroutines are inside calls that write one map.
  pub record IsRace (gs : List Goroutine) : Type 0 where
    pub shared : ℕ
    pub before : List Goroutine
    pub first : Goroutine
    pub between : List Goroutine
    pub second : Goroutine
    pub after : List Goroutine
    pub split : gs ≡ before ++ first ∷ (between ++ second ∷ after)
    pub first_writes : WritesMap shared first
    pub second_writes : WritesMap shared second

  -- Only a GitOps manager writes a map, and only its own.
  Writes-Uses : (i : ℕ) (t : Task) → Writes i t → Uses i t.manager
  Writes-Uses i t (w, key, changed) =
      unfold run_task in changes-Uses f c i t.manager t.args w key changed

abbrev managers : List Goroutine → List AlertManager
managers [] = []
managers (g ∷ gs) = g.task.manager ∷ managers gs

managers-replace :
    (before : List Goroutine) (g h : Goroutine) (after : List Goroutine)
    → g.task ≡ h.task
    → managers (before ++ g ∷ after) ≡ managers (before ++ h ∷ after)
managers-replace [] g h after e = ap (λ t. t.manager ∷ managers after) e
managers-replace (b ∷ before) g h after e =
    ap (λ ms. b.task.manager ∷ ms) (managers-replace before g h after e)

Reaches-managers :
    {f : Float} {c : Client} {gs gs' : List Goroutine} {w w' : World}
    → Reaches f c gs w gs' w'
    → managers gs' ≡ managers gs
Reaches-managers here = refl
Reaches-managers (enter before t after e r) =
    Reaches-managers r
    ∙ managers-replace before (in_phase calling t) (in_phase waiting t) after refl
    ∙ ap managers (sym e)
Reaches-managers (leave before t after e r) =
    Reaches-managers r
    ∙ managers-replace before (in_phase finished t) (in_phase calling t) after refl
    ∙ ap managers (sym e)

Apart-Uses : (i : ℕ) (m n : AlertManager) → Apart m n → Uses i m → ¬ Uses i n
Apart-Uses i (git_ops g) (git_ops h) apart u v = apart (u ∙ sym v)
Apart-Uses i (git_ops g) (prometheus p) apart u v = v
Apart-Uses i (git_ops g) (slack s) apart u v = v
Apart-Uses i (prometheus p) n apart u v = u
Apart-Uses i (slack s) n apart u v = u

All-Apart-Uses :
    (i : ℕ) (m : AlertManager) (between : List Goroutine) (h : Goroutine) (after : List Goroutine)
    → All (Apart m) (managers (between ++ h ∷ after))
    → Uses i m
    → ¬ Uses i h.task.manager
All-Apart-Uses i m [] h after (apart, rest) u v = Apart-Uses i m h.task.manager apart u v
All-Apart-Uses i m (b ∷ between) h after (apart, rest) u v =
    All-Apart-Uses i m between h after rest u v

AreApart-Uses :
    (i : ℕ) (before : List Goroutine) (g : Goroutine) (between : List Goroutine) (h : Goroutine)
    (after : List Goroutine)
    → AreApart (managers (before ++ g ∷ (between ++ h ∷ after)))
    → Uses i g.task.manager
    → ¬ Uses i h.task.manager
AreApart-Uses i [] g between h after (apart, rest) u v =
    All-Apart-Uses i g.task.manager between h after apart u v
AreApart-Uses i (b ∷ before) g between h after (apart, rest) u v =
    AreApart-Uses i before g between h after rest u v

abbrev pub task_of : AlertArgs → AlertManager → Task
task_of a m = record { manager = m; args = a }

managers-all_started :
    (a : AlertArgs) (ms : List AlertManager) → managers (all_started (map (task_of a) ms)) ≡ ms
managers-all_started a [] = refl
managers-all_started a (m ∷ ms) = ap (λ l. m ∷ l) (managers-all_started a ms)

-- The goroutines of one `SendAlert` on a service that `NewAlertService` has made never write one
-- map at the same moment, whatever the scheduler does.
pub send_alert_exclusive :
    (f : Float) (c : Client) (new_client : String → Failure) (config : Map (Map String)) (w : World)
    (s : AlertService) (a : AlertArgs) (gs : List Goroutine) (v v' : World)
    → (new_alert_service new_client config w).0 ≡ ok s
    → Reaches f c (all_started (send_alert a s)) v gs v'
    → ¬ IsRace f c gs
send_alert_exclusive f c new_client config w s a gs v v' made r race =
    let same : managers gs ≡ subscribers_of topic_alerts s.pubsub =
      Reaches-managers r
      ∙ (unfold send_alert publish in
          managers-all_started a (subscribers_of topic_alerts s.pubsub)) in
    let apart =
      subst AreApart (sym same ∙ ap managers race.split)
        (new_alert_service-AreApart new_client config w s made) in
    AreApart-Uses race.shared race.before race.first race.between race.second race.after apart
      (Writes-Uses f c race.shared race.first.task race.first_writes.1)
      (Writes-Uses f c race.shared race.second.task race.second_writes.1)
