-- ===== src/Operator/Monitor/Forecasts.antt =====
-- The sum of the forecasts, in whole numbers.
use climatik_project.Prelude.{
  ℕ, ◌+◌, ◌*◌, String, none, [], ◌∷◌, ◌≡◌, refl, sym, inl, inr, arith, eq_iff, All,
}
use climatik_project.Prelude.Int.{ℤ, pos}
use climatik_project.Go.Json.{Json, null}
use climatik_project.Go.Map.{Map, get, lookup, insert, lookup-insert}
use climatik_project.Go.Map.Order.{IsDistinct}
use climatik_project.Operator.Python.{returned, Outcome-cases}
use climatik_project.Operator.Number.{float}
use climatik_project.Operator.Number.Whole.{whole, from_int}
use climatik_project.Operator.Cluster.{Cluster}
use climatik_project.Operator.Monitor.{add_values, report_each, forecast_of}

-- The power of each deployment times its new number of replicas.
abbrev pub forecasts : Map ℤ → Map ℕ → ℕ
forecasts updated [] = 0
forecasts updated ((deployment, power) ∷ rest) =
    power * from_int (get (pos 1) deployment updated) + forecasts updated rest

-- None of the deployments has a forecast.
abbrev pub Fresh : Map ℕ → Map ℕ → Type 0
Fresh ps forecast = All (λ (entry : String × ℕ). lookup entry.0 forecast ≡ none) ps

Fresh-insert :
    (d : String) (x : ℕ) (ps forecast : Map ℕ)
    → lookup d ps ≡ none
    → Fresh ps forecast
    → Fresh ps (insert d x forecast)
unfolding lookup
Fresh-insert d x [] forecast h f = tt
Fresh-insert d x ((k, p) ∷ ps) forecast h (f, fs) = (
  ground (arith, lookup-insert d k x forecast, eq_iff d k, eq_iff k d),
  Fresh-insert d x ps forecast (ground (arith, eq_iff k d)) fs,
)

module _ (cluster : Cluster) where
  add_values-acc :
      (a b : ℕ) (m : Map ℕ) → add_values whole cluster (a + b) m ≡ a + add_values whole cluster b m
  unfolding add_values
  add_values-acc a b [] = refl
  add_values-acc a b ((k, x) ∷ m) = ground (arith, add_values-acc a (b + x) m)

  add_values-insert :
      (d : String) (x a : ℕ) (m : Map ℕ)
      → lookup d m ≡ none
      → add_values whole cluster a (insert d x m) ≡ x + add_values whole cluster a m
  unfolding add_values insert lookup
  add_values-insert d x a [] h = omega arith
  add_values-insert d x a ((k, y) ∷ m) h =
      ground (arith, add_values-insert d x (a + y) m, eq_iff k d)

  -- The third loop adds each forecast to the sum.
  pub report_each-forecasts :
      (updated : Map ℤ) (current : Map Json) (ps forecast last : Map ℕ)
      → IsDistinct ps
      → Fresh ps forecast
      → (report_each whole cluster updated current ps forecast).0 ≡ returned last
      → add_values whole cluster 0 last ≡ add_values whole cluster 0 forecast + forecasts updated ps
  unfolding report_each forecast_of
  report_each-forecasts updated current [] forecast last d f e =
      let same : forecast ≡ last = cc in rw (sym same) (omega arith)
  report_each-forecasts updated current ((k, p) ∷ ps) forecast last (fresh, d) (f, fs) e =
      elim (Outcome-cases (float whole (get null k current))) [
        | inr (x, bad) ↦ let h = rw (bad, report_each) at e in absurd (cc)
        | inl (count, fine) ↦
            let x = p * from_int (get (pos 1) k updated) in
            omega (
              arith,
              add_values-insert k x 0 forecast f,
              report_each-forecasts updated current ps (insert k x forecast) last d
                  (Fresh-insert k x ps forecast fresh fs) (rw (fine, report_each) at e),
            )
      ]
