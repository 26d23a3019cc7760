-- ===== src/Operator/Monitor/Readings.antt =====
-- What the first loop of `monitor_power_usage` has read of each reference.
use climatik_project.Prelude.{
  String, some, List, [], ◌∷◌, ◌≡◌, refl, sym, inl, inr, arith, All, subst, Bool-cases, ◌==◌,
}
use climatik_project.Go.Json.{Json}
use climatik_project.Go.Map.{Map, lookup, insert, lookup-insert, lookup-insert_self}
use climatik_project.Go.Map.Order.{IsDistinct, insert-IsDistinct}
use climatik_project.Operator.Python.{returned, Outcome-cases}
use climatik_project.Operator.Number.{Number}
use climatik_project.Operator.Cluster.{ObjectKey, Cluster, deployment_name, get_power_consumption}
use climatik_project.Operator.Monitor.{Usage, ref_key, scaled_object_of, read_usage, read_all}
use climatik_project.Operator.Monitor.Rounds.{Scales, scaled_object_of-reads}

abbrev HasPower {ℓ} : {F : Type ℓ} → String → Map F → Type ℓ
HasPower {F} d powers = (p : F) × (lookup d powers ≡ some p)

insert-HasPower {ℓ} :
    {F : Type ℓ} (d k : String) (p : F) (powers : Map F)
    → HasPower d powers
    → HasPower d (insert k p powers)
insert-HasPower d k p powers (q, h) = elim (Bool-cases (k == d)) [
  | inl same ↦ (p, rw (lookup-insert k d p powers, same) refl)
  | inr other ↦ (q, rw (lookup-insert k d p powers, other) h)
]

module _ (n : Number) (cluster : Cluster) (namespace : String) (s : cluster.S) where
  -- The reference names an object, and its deployment has a power.
  pub record IsRead (powers : Map n.F) (ref : Json) : Type 0 where
    pub key : ObjectKey
    pub deployment : String
    pub named : ref_key n cluster namespace ref ≡ returned key
    pub scales : Scales cluster s key deployment
    pub power : n.F
    pub listed : lookup deployment powers ≡ some power

  record Read (usage usage' : Usage n.F) (ref : Json) : Type 0 where
    key : ObjectKey
    deployment : String
    named : ref_key n cluster namespace ref ≡ returned key
    scales : Scales cluster s key deployment
    power : n.F
    added : usage'.power_consumptions ≡ insert deployment power usage.power_consumptions

  read_usage-Read :
      (ref : Json) (usage usage' : Usage n.F)
      → read_usage n cluster namespace s ref usage ≡ returned usage'
      → Read usage usage' ref
  unfolding read_usage
  read_usage-Read ref usage usage' e =
      elim (Outcome-cases (scaled_object_of n cluster namespace s ref)) [
        | inr (x, bad) ↦ let h = rw bad at e in absurd (cc)
        | inl (found, read) ↦ elim (Outcome-cases (deployment_name found.1)) [
          | inr (x, bad) ↦ let h = rw (read, bad) at e in absurd (cc)
          | inl (d, scales) ↦ elim (Outcome-cases (cluster.read_replicas s namespace d)) [
            | inr (x, bad) ↦ let h = rw (read, scales, bad) at e in absurd (cc)
            | inl (current, replicas) ↦
                elim (Outcome-cases (get_power_consumption n cluster s d namespace)) [
                  | inr (x, bad) ↦ let h = rw (read, scales, replicas, bad) at e in absurd (cc)
                  | inl (p, power) ↦
                      let h = rw (read, scales, replicas, power) at e in
                      record {
                        key = found.0;
                        deployment = d;
                        named = (scaled_object_of-reads n cluster namespace s ref found read).0;
                        scales = (
                          found.1,
                          (scaled_object_of-reads n cluster namespace s ref found read).1,
                          scales,
                        );
                        power = p;
                        added = ground arith;
                      }
                ]
          ]
        ]
      ]

  added-HasPower :
      (usage usage' : Usage n.F) (ref : Json) (d : String)
      → Read usage usage' ref
      → HasPower d usage.power_consumptions
      → HasPower d usage'.power_consumptions
  added-HasPower usage usage' ref d r h =
      subst (HasPower d) (sym r.added)
        (insert-HasPower d r.deployment r.power usage.power_consumptions h)

  read_all-step :
      (ref : Json) (refs : List Json) (usage last : Usage n.F)
      → read_all n cluster namespace s (ref ∷ refs) usage ≡ returned last
      → (mid : Usage n.F) × Read usage mid ref
        × (read_all n cluster namespace s refs mid ≡ returned last)
  unfolding read_all
  read_all-step ref refs usage last e =
      elim (Outcome-cases (read_usage n cluster namespace s ref usage)) [
        | inr (x, bad) ↦ let h = rw (bad, read_all) at e in absurd (cc)
        | inl (mid, fine) ↦ (mid, read_usage-Read ref usage mid fine, rw (fine, read_all) at e)
      ]

  read_all-nil :
      (usage last : Usage n.F)
      → read_all n cluster namespace s [] usage ≡ returned last
      → usage ≡ last
  unfolding read_all
  read_all-nil usage last e = cc

  read_all-HasPower :
      (refs : List Json) (usage last : Usage n.F) (d : String)
      → read_all n cluster namespace s refs usage ≡ returned last
      → HasPower d usage.power_consumptions
      → HasPower d last.power_consumptions
  read_all-HasPower [] usage last d e h =
      subst (λ u. HasPower d u.power_consumptions) (read_all-nil usage last e) h
  read_all-HasPower (ref ∷ refs) usage last d e h =
      let (mid, r, later) = read_all-step ref refs usage last e in
      read_all-HasPower refs mid last d later (added-HasPower usage mid ref d r h)

  -- Every reference is read, and each deployment stands once among the powers.
  pub read_all-IsRead :
      (refs : List Json) (usage last : Usage n.F)
      → read_all n cluster namespace s refs usage ≡ returned last
      → IsDistinct usage.power_consumptions
      → IsDistinct last.power_consumptions × All (IsRead last.power_consumptions) refs
  read_all-IsRead [] usage last e distinct =
      (subst (λ u. IsDistinct u.power_consumptions) (read_all-nil usage last e) distinct, tt)
  read_all-IsRead (ref ∷ refs) usage last e distinct =
      let (mid, r, later) = read_all-step ref refs usage last e in
      let still : IsDistinct mid.power_consumptions =
        subst IsDistinct (sym r.added)
          (insert-IsDistinct r.deployment r.power usage.power_consumptions distinct) in
      let own : HasPower r.deployment mid.power_consumptions = (
        r.power,
        subst (λ m. lookup r.deployment m ≡ some r.power) (sym r.added)
            (lookup-insert_self r.deployment r.power usage.power_consumptions),
      ) in
      let (p, listed) = read_all-HasPower refs mid last r.deployment later own in
      let (final, all) = read_all-IsRead refs mid last later still in
      (
        final,
        (
          record {
            key = r.key;
            deployment = r.deployment;
            named = r.named;
            scales = r.scales;
            power = p;
            listed = listed;
          },
          all,
        ),
      )
