-- ===== src/Operator/Strategy.antt =====
-- python/climatik_operator/strategies
pub mod Share
use climatik_project.Prelude.{String, Option, none, some, List, [], ◌∷◌, ◌==◌, if◌then◌else◌}
use climatik_project.Prelude.Int.{ℤ}
use climatik_project.Go.Json.{Json}
use climatik_project.Go.Map.{Map, insert}
use climatik_project.Operator.Python.{Outcome, returned, raised, value_error, ◌>>=◌}
use climatik_project.Operator.Number.{Number, true_div}

pub data PowerCappingStrategy : Type 0 where
  maximize_replicas prioritize_high_replica : PowerCappingStrategy

-- `get_power_capping_strategy`
unfoldable pub get_power_capping_strategy : String → Outcome PowerCappingStrategy
get_power_capping_strategy strategy_name =
    if strategy_name == "maximize_replicas"
    then returned maximize_replicas
    else if strategy_name == "prioritize_high_replica"
    then returned prioritize_high_replica
    else raised value_error

module _ (n : Number) where
  -- `int(total_power_cap / power_consumption)`
  unfoldable pub allowed_replicas : Json → n.F → Outcome ℤ
  allowed_replicas total_power_cap power_consumption = do
    quotient ← true_div n total_power_cap power_consumption
    n.to_int quotient

  -- The loop over the power consumptions, with what `updated_max_replicas` has so far.
  unfoldable pub fill_replicas : Json → Map n.F → Map ℤ → Outcome (Map ℤ)
  fill_replicas total_power_cap [] updated = returned updated
  fill_replicas total_power_cap ((deployment_name, power_consumption) ∷ rest) updated = do
    replicas ← allowed_replicas total_power_cap power_consumption
    fill_replicas total_power_cap rest (insert deployment_name replicas updated)

  -- The two strategies have the same body; the current replicas are not used.
  unfoldable pub calculate_max_replicas :
      PowerCappingStrategy → Map Json → Map n.F → Json → Outcome (Map ℤ)
  unfolding fill_replicas
  calculate_max_replicas maximize_replicas current_replicas power_consumptions total_power_cap =
      fill_replicas total_power_cap power_consumptions []
  calculate_max_replicas prioritize_high_replica current_replicas power_consumptions
        total_power_cap =
      fill_replicas total_power_cap power_consumptions []
