-- ===== src/Alert/Races/Overlaps.antt =====
-- What overlapping calls of one alert leave in the maps.
use climatik_project.Prelude.{List, [], ◌∷◌, ◌≡◌}
use climatik_project.Go.Client.{Client}
use climatik_project.Go.Float.{Float}
use climatik_project.Alert.World.{World}
use climatik_project.Alert.PubSub.{Task}
use climatik_project.Alert.Races.{Phase, waiting, calling, finished, Goroutine}

abbrev pub IsFinished : Goroutine → Type 0
IsFinished g = g.phase ≡ finished

abbrev left_in : Phase → Task → List Task → List Task
left_in finished t ts = ts
left_in waiting t ts = t ∷ ts
left_in calling t ts = t ∷ ts

-- The tasks whose calls have not ended.
abbrev left : List Goroutine → List Task
left [] = []
left (g ∷ gs) = left_in g.phase g.task (left gs)
