-- ===== src/Operator/Monitor/Objects.antt =====
-- The limit and the deployment of an object, and what setting the limit makes of them.
use climatik_project.Prelude.{Option-cases, some, ◌≡◌, refl, subst, inl, inr}
use climatik_project.Prelude.Int.{ℤ}
use climatik_project.Go.Json.{Json, num, obj, Fields, set_field}
use climatik_project.Operator.Python.{Outcome, returned, ◌>>=◌, find, item, find-set_field}
use climatik_project.Operator.Cluster.{deployment_name, with_max_replicas}

-- `object['spec']['maxReplicaCount']`
abbrev pub max_replica_count : Json → Outcome Json
max_replica_count scaled_object = do spec ← item "spec" scaled_object; item "maxReplicaCount" spec

-- For an object with a dictionary under `spec`.
set_max-reads :
    (m : ℤ) (fs inner : Fields)
    → find "spec" fs ≡ some (obj inner)
    → (deployment_name (obj (set_field "spec" (obj (set_field "maxReplicaCount" (num m) inner)) fs))
        ≡ deployment_name (obj fs))
      × (max_replica_count
            (obj (set_field "spec" (obj (set_field "maxReplicaCount" (num m) inner)) fs))
          ≡ returned (num m))
unfolding deployment_name item
set_max-reads m fs inner e =
    let new_inner = set_field "maxReplicaCount" (num m) inner in
    let spec_there : find "spec" (set_field "spec" (obj new_inner) fs) ≡ some (obj new_inner) =
      find-set_field "spec" "spec" (obj new_inner) fs in
    let count_there : find "maxReplicaCount" new_inner ≡ some (num m) =
      find-set_field "maxReplicaCount" "maxReplicaCount" (num m) inner in
    let target_kept : find "scaleTargetRef" new_inner ≡ find "scaleTargetRef" inner =
      find-set_field "maxReplicaCount" "scaleTargetRef" (num m) inner in
    (rw (spec_there, e, target_kept) refl, rw (spec_there, count_there) refl)

set_spec-reads :
    (m : ℤ) (fs : Fields) (spec body : Json)
    → find "spec" fs ≡ some spec
    → with_max_replicas m (obj fs) ≡ returned body
    → (deployment_name body ≡ deployment_name (obj fs))
      × (max_replica_count body ≡ returned (num m))
unfolding with_max_replicas item
set_spec-reads m fs (obj inner) body e h =
    let (kept, set) = set_max-reads m fs inner e in
    let same : obj (set_field "spec" (obj (set_field "maxReplicaCount" (num m) inner)) fs) ≡ body =
      let found = rw e at h in cc in
    subst
      (λ b.
        (deployment_name b ≡ deployment_name (obj fs)) × (max_replica_count b ≡ returned (num m)))
      same (kept, set)
set_spec-reads m fs spec body e h = let bad = rw e at h in absurd (cc)

pub with_max_replicas-reads :
    (m : ℤ) (o body : Json)
    → with_max_replicas m o ≡ returned body
    → (deployment_name body ≡ deployment_name o) × (max_replica_count body ≡ returned (num m))
unfolding with_max_replicas item
with_max_replicas-reads m (obj fs) body e = elim (Option-cases (find "spec" fs)) [
  | inl missing ↦ let bad = rw missing at e in absurd (cc)
  | inr (spec, there) ↦ set_spec-reads m fs spec body there (unfold with_max_replicas item in e)
]
with_max_replicas-reads m o body e = absurd (cc)
