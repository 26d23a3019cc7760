-- ===== src/Operator/Monitor/Rounds.antt =====
-- One round of the loops of `monitor_power_usage` over the references.
use climatik_project.Prelude.{String, none, List, ◌∷◌, ◌≡◌, subst, inl, inr}
use climatik_project.Prelude.Int.{ℤ, pos}
use climatik_project.Go.Json.{Json}
use climatik_project.Go.Map.{Map, get}
use climatik_project.Operator.Python.{returned, Outcome-cases}
use climatik_project.Operator.Number.{Number}
use climatik_project.Operator.Cluster.{
  ObjectKey, Cluster, deployment_name, with_max_replicas, patch_each, patch_one,
}
use climatik_project.Operator.Monitor.{ref_key, scaled_object_of, scale_object}

module _ (cluster : Cluster) where
  -- The object under the key scales the deployment.
  abbrev pub Scales : cluster.S → ObjectKey → String → Type 0
  Scales s key d =
      (o : Json) × (cluster.get_object s key ≡ returned o) × (deployment_name o ≡ returned d)

module _ (n : Number) (cluster : Cluster) (namespace : String) where
  pub scaled_object_of-reads :
      (s : cluster.S) (ref : Json) (found : ObjectKey × Json)
      → scaled_object_of n cluster namespace s ref ≡ returned found
      → (ref_key n cluster namespace ref ≡ returned found.0)
        × (cluster.get_object s found.0 ≡ returned found.1)
  unfolding scaled_object_of
  scaled_object_of-reads s ref found e = elim (Outcome-cases (ref_key n cluster namespace ref)) [
    | inr (x, bad) ↦ let h = rw bad at e in absurd (cc)
    | inl (key, named) ↦ elim (Outcome-cases (cluster.get_object s key)) [
      | inr (x, bad) ↦ let h = rw (named, bad) at e in absurd (cc)
      | inl (object, there) ↦
          let same : (key, object) ≡ found = let h = rw (named, there) at e in cc in
          subst
            (λ f.
              (ref_key n cluster namespace ref ≡ returned f.0)
              × (cluster.get_object s f.0 ≡ returned f.1))
            same (named, there)
    ]
  ]

module _ (n : Number) (cluster : Cluster) (namespace : String) (updated : Map ℤ) where
  -- What one round has read and made.
  pub record Prepared (s : cluster.S) (ref : Json) (prepared : ObjectKey × Json) : Type 0 where
    pub object : Json
    pub deployment : String
    pub named : ref_key n cluster namespace ref ≡ returned prepared.0
    pub read : cluster.get_object s prepared.0 ≡ returned object
    pub scales : deployment_name object ≡ returned deployment
    pub made : with_max_replicas (get (pos 1) deployment updated) object ≡ returned prepared.1

  scale_object-Prepared :
      (s : cluster.S) (ref : Json) (prepared : ObjectKey × Json)
      → scale_object n cluster namespace updated s ref ≡ returned prepared
      → Prepared s ref prepared
  unfolding scale_object
  scale_object-Prepared s ref prepared e =
      elim (Outcome-cases (scaled_object_of n cluster namespace s ref)) [
        | inr (x, bad) ↦ let h = rw bad at e in absurd (cc)
        | inl (found, read) ↦ elim (Outcome-cases (deployment_name found.1)) [
          | inr (x, bad) ↦ let h = rw (read, bad) at e in absurd (cc)
          | inl (deployment, scales) ↦
              elim (Outcome-cases (with_max_replicas (get (pos 1) deployment updated) found.1)) [
                | inr (x, bad) ↦ let h = rw (read, scales, bad) at e in absurd (cc)
                | inl (body, made) ↦
                    let same : (found.0, body) ≡ prepared =
                      let h = rw (read, scales, made) at e in cc in
                    subst (Prepared s ref) same (record {
                      object = found.1;
                      deployment = deployment;
                      named = (scaled_object_of-reads n cluster namespace s ref found read).0;
                      read = (scaled_object_of-reads n cluster namespace s ref found read).1;
                      scales = scales;
                      made = made;
                    })
              ]
        ]
      ]

  -- One round of the patches.
  pub record Patched (s s' : cluster.S) (ref : Json) : Type 0 where
    pub key : ObjectKey
    pub body : Json
    pub from : Prepared s ref (key, body)
    pub done : cluster.patch_object s key body ≡ returned s'

  pub patch_one-Patched :
      (s s' : cluster.S) (ref : Json)
      → patch_one n cluster (scale_object n cluster namespace updated) s ref ≡ returned s'
      → Patched s s' ref
  patch_one-Patched s s' ref e =
      elim (Outcome-cases (scale_object n cluster namespace updated s ref)) [
        | inr (x, bad) ↦ let h = rw bad at e in absurd (cc)
        | inl (prepared, fine) ↦ record {
          key = prepared.0;
          body = prepared.1;
          from = scale_object-Prepared s ref prepared fine;
          done = rw fine at e;
        }
      ]

  pub patch_each-step :
      (s s' : cluster.S) (ref : Json) (refs : List Json)
      → patch_each n cluster (scale_object n cluster namespace updated) (ref ∷ refs) s ≡ (none, s')
      → (mid : cluster.S) × Patched s mid ref
        × (patch_each n cluster (scale_object n cluster namespace updated) refs mid ≡ (none, s'))
  unfolding patch_each
  patch_each-step s s' ref refs e =
      let one = patch_one n cluster (scale_object n cluster namespace updated) s ref in
      elim (Outcome-cases one) [
        | inr (x, bad) ↦ let h = rw (bad, patch_each) at e in absurd (cc)
        | inl (mid, fine) ↦ (mid, patch_one-Patched s mid ref fine, rw (fine, patch_each) at e)
      ]
