-- ===== src/Alert/World.antt =====
-- What the alert managers act on: the maps that `make` has allocated for the GitOps managers, by
-- their number, the next free number, and the HTTP requests that were sent, the last one first.
use climatik_project.Prelude.{ℕ, ◌+◌, String, List, [], ◌∷◌, nat_eq, if◌then◌else◌}
use climatik_project.Prelude.Int.{ℤ}
use climatik_project.Api.{PowerCappingConfig}
use climatik_project.Go.Map.{Map}
use climatik_project.Go.Http.{Post}

pub record World : Type 0 where
  pub stores : ℕ → Map String
  pub next : ℕ
  pub sent : List Post

abbrev pub set_store : ℕ → Map String → World → World
set_store i store w = record w { stores = λ j. if nat_eq i j then store else w.stores j }

-- `make(map[string]string)`: an empty map under the next number.
abbrev pub allocate : World → World
allocate w = record (set_store w.next [] w) { next = w.next + 1 }

abbrev pub log_post : Post → World → World
log_post p w = record w { sent = p ∷ w.sent }

-- The arguments of `CreateAlert`.
pub record AlertArgs : Type 0 where
  pub pod_name : String
  pub power_cap_value : ℤ
  pub devices : Map String
  pub config : PowerCappingConfig
