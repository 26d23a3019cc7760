-- ===== src/Operator/Monitor/Scaled.antt =====
-- What a run of `monitor_power_usage` makes of the objects.
use climatik_project.Prelude.{String, ◌⊎◌, none, List, [], ◌∷◌, ◌≡◌, sym, subst, ◌∙◌, inl, inr, All}
use climatik_project.Prelude.Int.{ℤ, pos}
use climatik_project.Go.Json.{Json, num}
use climatik_project.Go.Map.{Map, get}
use climatik_project.Operator.Python.{returned}
use climatik_project.Operator.Number.{Number}
use climatik_project.Operator.Cluster.{ObjectKey, Cluster, deployment_name, patch_each}
use climatik_project.Operator.Monitor.Objects.{max_replica_count, with_max_replicas-reads}
use climatik_project.Operator.Monitor.Rounds.{Scales, Patched, patch_each-step}
use climatik_project.Operator.Monitor.{ref_key, scale_object}

-- The documented behaviour of a patch: the object takes the deployment and the limit of the body,
-- and every other object is as it was.
pub record PatchLaws (cluster : Cluster) : Type 0 where
  pub patched :
      (s s' : cluster.S) (key : ObjectKey) (body : Json)
      → cluster.patch_object s key body ≡ returned s'
      → (o : Json) × (cluster.get_object s' key ≡ returned o)
        × (deployment_name o ≡ deployment_name body)
        × (max_replica_count o ≡ max_replica_count body)
  pub others_kept :
      (s s' : cluster.S) (key : ObjectKey) (body : Json)
      → cluster.patch_object s key body ≡ returned s'
      → (k : ObjectKey) → (k ≡ key) ⊎ (cluster.get_object s' k ≡ cluster.get_object s k)

module _ (n : Number) (cluster : Cluster) (namespace : String) (updated : Map ℤ) where
  -- The object has the new limit of its deployment, and 1 if none was calculated.
  pub record IsScaled (s : cluster.S) (key : ObjectKey) : Type 0 where
    pub object : Json
    pub deployment : String
    pub there : cluster.get_object s key ≡ returned object
    pub scales : deployment_name object ≡ returned deployment
    pub limited : max_replica_count object ≡ returned (num (get (pos 1) deployment updated))

  -- The object that a reference names is scaled.
  abbrev pub RefIsScaled : cluster.S → Json → Type 0
  RefIsScaled s ref =
      (key : ObjectKey) × (ref_key n cluster namespace ref ≡ returned key) × IsScaled s key

  module _ (laws : PatchLaws cluster) where
    Patched-IsScaled :
        (s s' : cluster.S) (ref : Json) (p : Patched n cluster namespace updated s s' ref)
        → IsScaled s' p.key
    Patched-IsScaled s s' ref p =
        let (o, there, same_deployment, same_count) = laws.patched s s' p.key p.body p.done in
        let (kept, set) =
          with_max_replicas-reads (get (pos 1) p.from.deployment updated) p.from.object p.body
            p.from.made in
        record {
          object = o;
          deployment = p.from.deployment;
          there = there;
          scales = same_deployment ∙ kept ∙ p.from.scales;
          limited = same_count ∙ set;
        }

    Patched-keeps :
        (s s' : cluster.S) (ref : Json) (p : Patched n cluster namespace updated s s' ref)
        (key : ObjectKey)
        → IsScaled s key
        → IsScaled s' key
    Patched-keeps s s' ref p key h = elim (laws.others_kept s s' p.key p.body p.done key) [
      | inl same ↦ subst (IsScaled s') (sym same) (Patched-IsScaled s s' ref p)
      | inr kept ↦ record {
        object = h.object;
        deployment = h.deployment;
        there = kept ∙ h.there;
        scales = h.scales;
        limited = h.limited;
      }
    ]

    Patched-Scales :
        (s s' : cluster.S) (ref : Json) (p : Patched n cluster namespace updated s s' ref)
        → Scales cluster s' p.key p.from.deployment
    Patched-Scales s s' ref p =
        let (o, there, same_deployment, same_count) = laws.patched s s' p.key p.body p.done in
        let (kept, set) =
          with_max_replicas-reads (get (pos 1) p.from.deployment updated) p.from.object p.body
            p.from.made in
        (o, there, same_deployment ∙ kept ∙ p.from.scales)

    -- A patch leaves every object its deployment.
    pub Patched-keeps-Scales :
        (s s' : cluster.S) (ref : Json) (p : Patched n cluster namespace updated s s' ref)
        (key : ObjectKey) (d : String)
        → Scales cluster s key d
        → Scales cluster s' key d
    Patched-keeps-Scales s s' ref p key d (o, there, scales) =
        elim (laws.others_kept s s' p.key p.body p.done key) [
          | inr kept ↦ (o, kept ∙ there, scales)
          | inl same ↦
              let read : cluster.get_object s key ≡ returned p.from.object =
                subst (λ k. cluster.get_object s k ≡ returned p.from.object) (sym same)
                  p.from.read in
              let one : p.from.object ≡ o = cc in
              let name : p.from.deployment ≡ d = cc in
              subst (λ k. Scales cluster s' k d) (sym same)
                (subst (Scales cluster s' p.key) name (Patched-Scales s s' ref p))
        ]

    pub patch_each-keeps-Scales :
        (refs : List Json) (s s' : cluster.S) (key : ObjectKey) (d : String)
        → patch_each n cluster (scale_object n cluster namespace updated) refs s ≡ (none, s')
        → Scales cluster s key d
        → Scales cluster s' key d
    patch_each-keeps-Scales [] s s' key d e h =
        let same : s ≡ s' = (unfold patch_each in cc) in subst (λ t. Scales cluster t key d) same h
    patch_each-keeps-Scales (ref ∷ refs) s s' key d e h =
        let (mid, p, later) = patch_each-step n cluster namespace updated s s' ref refs e in
        patch_each-keeps-Scales refs mid s' key d later (Patched-keeps-Scales s mid ref p key d h)

    patch_each-keeps :
        (refs : List Json) (s s' : cluster.S) (key : ObjectKey)
        → patch_each n cluster (scale_object n cluster namespace updated) refs s ≡ (none, s')
        → IsScaled s key
        → IsScaled s' key
    patch_each-keeps [] s s' key e h =
        let same : s ≡ s' = (unfold patch_each in cc) in subst (λ t. IsScaled t key) same h
    patch_each-keeps (ref ∷ refs) s s' key e h =
        let (mid, p, later) = patch_each-step n cluster namespace updated s s' ref refs e in
        patch_each-keeps refs mid s' key later (Patched-keeps s mid ref p key h)

    -- After the loop every object is scaled, also one that two references name.
    pub patch_each-RefIsScaled :
        (refs : List Json) (s s' : cluster.S)
        → patch_each n cluster (scale_object n cluster namespace updated) refs s ≡ (none, s')
        → All (RefIsScaled s') refs
    patch_each-RefIsScaled [] s s' e = tt
    patch_each-RefIsScaled (ref ∷ refs) s s' e =
        let (mid, p, later) = patch_each-step n cluster namespace updated s s' ref refs e in
        (
          (
            p.key,
            p.from.named,
            patch_each-keeps refs mid s' p.key later (Patched-IsScaled s mid ref p),
          ),
          patch_each-RefIsScaled refs mid s' later,
        )
