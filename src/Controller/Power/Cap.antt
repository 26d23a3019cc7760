-- ===== src/Controller/Power/Cap.antt =====
-- The power cap: never negative peaks, and caps that grow with the level.
use climatik_project.Prelude.{
  String, some, List, [], ◌∷◌, ◌≡◌, refl, inl, inr, true, false, arith, subst, Bool-cases,
}
use climatik_project.Prelude.Int.{ℤ, pos, leb_ℤ}
use climatik_project.Go.Result.{Result, ok, err}
use climatik_project.Go.Duration.{print_duration}
use climatik_project.Go.Float.{Float, FloatLaws}
use climatik_project.Controller.Metrics.{Querier, query_pod_peak_power}
use climatik_project.Controller.Power.{
  Event, get_power_cap_percentage, raise_peak, watch_loop, calculate_power_cap,
}

module _ {f : Float} (laws : FloatLaws f) where
  raise_peak_nonneg :
      (r : Result f.F) (peak : f.F) → raise_peak f f.zero r ≡ ok peak → f.gt f.zero peak ≡ false
  raise_peak_nonneg (err e) peak h = cc
  raise_peak_nonneg (ok current) peak h = elim (Bool-cases (f.gt current f.zero)) [
    | inl above ↦
        let same : current ≡ peak = ground arith in
        subst (λ x. f.gt f.zero x ≡ false) same (laws.gt_asymmetric current f.zero above)
    | inr low ↦
        let same : f.zero ≡ peak = ground arith in
        subst (λ x. f.gt f.zero x ≡ false) same (laws.gt_irreflexive f.zero)
  ]

  -- A watch that ends with a peak ends with one that is not below zero.
  watch_loop_nonneg :
      (query : Querier f) (pod_name : String) (window : ℤ) (events : List Event) (peak : f.F)
      → watch_loop f query pod_name window events f.zero ≡ some (ok peak)
      → f.gt f.zero peak ≡ false
  unfolding watch_loop
  watch_loop_nonneg query pod_name window [] peak h = cc
  watch_loop_nonneg query pod_name window (Event.done ∷ events) peak h =
      let same : f.zero ≡ peak = cc in
      subst (λ x. f.gt f.zero x ≡ false) same (laws.gt_irreflexive f.zero)
  watch_loop_nonneg query pod_name window (Event.tick ∷ events) peak h =
      raise_peak_nonneg (query_pod_peak_power f query pod_name (print_duration window)) peak (cc)

  cap_mono :
      (peak : f.F) (i j : ℤ)
      → f.gt f.zero peak ≡ false
      → leb_ℤ (pos 0) i ≡ true
      → leb_ℤ i j ≡ true
      → f.gt (calculate_power_cap f peak i) (calculate_power_cap f peak j) ≡ false
  unfolding calculate_power_cap
  cap_mono peak i j h k l = laws.div_mono _ _ (pos 100) refl (laws.mul_mono peak i j h k l)

  -- After a watch that ended with a peak, the caps of the labels "low", "medium" and "high" are
  -- ordered: none exceeds the next one, whatever rounding does.
  pub caps_ordered :
      (query : Querier f) (pod_name : String) (window : ℤ) (events : List Event) (peak : f.F)
      → watch_loop f query pod_name window events f.zero ≡ some (ok peak)
      → (f.gt
            (calculate_power_cap f peak (get_power_cap_percentage "low"))
            (calculate_power_cap f peak (get_power_cap_percentage "medium"))
          ≡ false)
        × (f.gt
              (calculate_power_cap f peak (get_power_cap_percentage "medium"))
              (calculate_power_cap f peak (get_power_cap_percentage "high"))
            ≡ false)
  unfolding get_power_cap_percentage
  caps_ordered query pod_name window events peak h =
      let above = watch_loop_nonneg query pod_name window events peak h in
      (
        cap_mono peak (pos 50) (pos 80) above refl refl,
        cap_mono peak (pos 80) (pos 90) above refl refl,
      )
