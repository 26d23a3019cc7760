-- ===== src/Operator/Strategy/Share.antt =====
-- What the strategies allow a deployment, and when they fail.
use climatik_project.Prelude.{
  String, none, some, true, [], ◌∷◌, ◌≡◌, ◌⊎◌, sym, inl, inr, Bool-cases, arith, eq_iff, ◌==◌,
  ==-eq-true, ap,
}
use climatik_project.Prelude.Int.{ℤ}
use climatik_project.Go.Json.{Json}
use climatik_project.Go.Map.{Map, lookup, insert, lookup-insert}
use climatik_project.Go.Map.Order.{IsDistinct}
use climatik_project.Operator.Python.{Exception, returned, raised, zero_division, Outcome-cases}
use climatik_project.Operator.Number.{Number, number, true_div}
use climatik_project.Operator.Strategy.{
  PowerCappingStrategy, maximize_replicas, prioritize_high_replica, allowed_replicas, fill_replicas,
  calculate_max_replicas,
}

module _ (n : Number) where
  -- One of the deployments consumes no power.
  abbrev pub HasIdle : Map n.F → Type 0
  HasIdle [] = ⊥
  HasIdle ((name, power) ∷ rest) = (n.is_zero power ≡ true) ⊎ HasIdle rest

module _ (n : Number) (cap : Json) where
  fill-step :
      (name : String) (power : n.F) (rest : Map n.F) (updated done : Map ℤ)
      → fill_replicas n cap ((name, power) ∷ rest) updated ≡ returned done
      → (q : ℤ) × (allowed_replicas n cap power ≡ returned q)
        × (fill_replicas n cap rest (insert name q updated) ≡ returned done)
  unfolding fill_replicas
  fill-step name power rest updated done e = elim (Outcome-cases (allowed_replicas n cap power)) [
    | inl (q, fine) ↦ (q, fine, rw (fine, fill_replicas) at e)
    | inr (x, bad) ↦ absurd (cc)
  ]

  fill-nil :
      (updated done : Map ℤ) → fill_replicas n cap [] updated ≡ returned done → updated ≡ done
  unfolding fill_replicas
  fill-nil updated done e = cc

  -- A deployment without a power keeps what it has.
  fill-absent :
      (k : String) (ps : Map n.F) (updated done : Map ℤ)
      → lookup k ps ≡ none
      → fill_replicas n cap ps updated ≡ returned done
      → lookup k done ≡ lookup k updated
  unfolding lookup
  fill-absent k [] updated done h e = ap (lookup k) (sym (fill-nil updated done e))
  fill-absent k ((name, power) ∷ rest) updated done h e =
      let (q, fine, later) = fill-step name power rest updated done e in
      ground (
        arith,
        eq_iff name k,
        fill-absent k rest (insert name q updated) done,
        lookup-insert name k q updated,
      )

  -- A deployment with a power gets what the limit allows it.
  fill-present :
      (k : String) (p : n.F) (ps : Map n.F) (updated done : Map ℤ)
      → IsDistinct ps
      → lookup k ps ≡ some p
      → fill_replicas n cap ps updated ≡ returned done
      → (q : ℤ) × (allowed_replicas n cap p ≡ returned q) × (lookup k done ≡ some q)
  unfolding lookup
  fill-present k p [] updated done d h e = absurd (cc)
  fill-present k p ((name, power) ∷ rest) updated done (fresh, d) h e =
      let (q, fine, later) = fill-step name power rest updated done e in
      elim (Bool-cases (name == k)) [
        | inl same ↦
            let here : name ≡ k = ==-eq-true name k same in
            (
              q,
              ground arith,
              ground (
                arith,
                fill-absent k rest (insert name q updated) done,
                lookup-insert name k q updated,
              ),
            )
        | inr other ↦ fill-present k p rest (insert name q updated) done d (rw other at h) later
      ]

  allowed-idle :
      (power : n.F)
      → n.is_zero power ≡ true
      → (e : Exception) × (allowed_replicas n cap power ≡ raised e)
  unfolding allowed_replicas true_div
  allowed-idle power idle = elim (Outcome-cases (number n cap)) [
    | inl (y, fine) ↦ (zero_division, rw (fine, idle))
    | inr (x, bad) ↦ (x, rw bad)
  ]

  fill-idle :
      (ps : Map n.F) (updated : Map ℤ)
      → HasIdle n ps
      → (e : Exception) × (fill_replicas n cap ps updated ≡ raised e)
  unfolding fill_replicas
  fill-idle [] updated h = absurd h
  fill-idle ((name, power) ∷ rest) updated (inl idle) =
      let (x, bad) = allowed-idle power idle in (x, rw bad)
  fill-idle ((name, power) ∷ rest) updated (inr later) =
      elim (Outcome-cases (allowed_replicas n cap power)) [
        | inl (q, fine) ↦ rw fine (fill-idle rest (insert name q updated) later)
        | inr (x, bad) ↦ (x, rw bad)
      ]

  -- No strategy gets past a deployment that consumes no power.
  pub calculate_max_replicas-idle :
      (strategy : PowerCappingStrategy) (current : Map Json) (ps : Map n.F)
      → HasIdle n ps
      → (e : Exception) × (calculate_max_replicas n strategy current ps cap ≡ raised e)
  unfolding calculate_max_replicas
  calculate_max_replicas-idle maximize_replicas current ps h = fill-idle ps [] h
  calculate_max_replicas-idle prioritize_high_replica current ps h = fill-idle ps [] h

  -- Both strategies allow each deployment what the whole limit allows it.
  pub calculate_max_replicas-share :
      (strategy : PowerCappingStrategy) (current : Map Json) (ps : Map n.F) (done : Map ℤ)
      (k : String) (p : n.F)
      → IsDistinct ps
      → calculate_max_replicas n strategy current ps cap ≡ returned done
      → lookup k ps ≡ some p
      → (q : ℤ) × (allowed_replicas n cap p ≡ returned q) × (lookup k done ≡ some q)
  unfolding calculate_max_replicas
  calculate_max_replicas-share maximize_replicas current ps done k p d e h =
      fill-present k p ps [] done d h e
  calculate_max_replicas-share prioritize_high_replica current ps done k p d e h =
      fill-present k p ps [] done d h e
