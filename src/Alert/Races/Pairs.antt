-- ===== src/Alert/Races/Pairs.antt =====
-- Two alerts whose calls on one GitOps manager overlap.
use climatik_project.Prelude.{List, [], ◌∷◌}
use climatik_project.Alert.World.{World, AlertArgs}
use climatik_project.Go.Client.{Client}
use climatik_project.Go.Float.{Float}
use climatik_project.Alert.Manager.{AlertManager}
use climatik_project.Alert.Races.{Goroutine, waiting, in_phase, task_of}

abbrev no_alerts : World
no_alerts = record { stores = λ i. []; next = 0; sent = [] }

abbrev all_waiting : AlertArgs → List AlertManager → List Goroutine
all_waiting a [] = []
all_waiting a (m ∷ ms) = in_phase waiting (task_of a m) ∷ all_waiting a ms
