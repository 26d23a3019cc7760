-- ===== src/Controller/Cluster.antt =====
-- The Kubernetes objects that the controller reads, and `Reconcile`.
use climatik_project.Prelude.{String, none, some}
use climatik_project.Go.Result.{Error, Failure}
use climatik_project.Go.Map.{Map}
use climatik_project.Api.{PowerCappingConfig}

pub record Pod : Type 0 where
  pub name : String
  pub namespace : String
  pub labels : Map String

-- What the API server answers to `Get`: `errors.IsNotFound` tells the two errors apart.
pub data Answer : Type 0 where
  found : PowerCappingConfig → Answer
  not_found : Error → Answer
  failed : Error → Answer

-- `r.Get` by namespace and name.
abbrev pub Cluster : Type 0
Cluster = String → String → Answer

-- The error that `Reconcile` returns; the result beside it is always empty.
unfoldable pub reconcile : Cluster → String → String → Failure
reconcile get namespace name = elim (get namespace name) [
  | found config ↦ none
  | not_found e ↦ none
  | failed e ↦ some e
]
