-- ===== src/Controller/Power.antt =====
-- Watching a pod's power for one sample window, and the cap that follows from the peak.
pub mod Window
pub mod Cap
use climatik_project.Prelude.{ℕ, String, Option, none, some, List, [], ◌∷◌, ◌==◌, if◌then◌else◌}
use climatik_project.Prelude.Int.{ℤ, pos, is_pos}
use climatik_project.Go.Result.{Result, ok, err, Call, ret, panic}
use climatik_project.Go.Duration.{print_duration}
use climatik_project.Go.Float.{Float}
use climatik_project.Controller.Metrics.{Querier, query_pod_peak_power}

-- What the `select` of the watch loop receives: the context is done, or the ticker has fired.
pub data Event : Type 0 where
  done tick : Event

abbrev pub default_power_cap_high : ℤ
default_power_cap_high = pos 90

abbrev pub default_power_cap_medium : ℤ
default_power_cap_medium = pos 80

abbrev pub default_power_cap_low : ℤ
default_power_cap_low = pos 50

-- `getPowerCapPercentage`
unfoldable pub get_power_cap_percentage : String → ℤ
get_power_cap_percentage label =
    if label == "high"
    then default_power_cap_high
    else if label == "medium"
    then default_power_cap_medium
    else if label == "low"
    then default_power_cap_low
    else pos 0

module _ (f : Float) where
  abbrev pub raise_peak : f.F → Result f.F → Result f.F
  raise_peak peak (err e) = err e
  raise_peak peak (ok current) = ok (if f.gt current peak then current else peak)

  -- The loop, over the events that arrive; `none` means that it still waits.
  unfoldable pub watch_loop : Querier f → String → ℤ → List Event → f.F → Option (Result f.F)
  watch_loop query pod_name window [] peak = none
  watch_loop query pod_name window (done ∷ events) peak = some (ok peak)
  watch_loop query pod_name window (tick ∷ events) peak =
      some (raise_peak peak (query_pod_peak_power f query pod_name (print_duration window)))

  -- `time.NewTicker` panics unless the window is positive.
  unfoldable pub watch_pod_power_usage :
      Querier f → String → ℤ → List Event → Call (Option (Result f.F))
  unfolding watch_loop
  watch_pod_power_usage query pod_name window events =
      if is_pos window
      then ret (watch_loop query pod_name window events f.zero)
      else panic "non-positive interval for NewTicker"

  unfoldable pub calculate_power_cap : f.F → ℤ → f.F
  calculate_power_cap peak_power percentage =
      f.div (f.mul peak_power (f.of_int percentage)) (f.of_int (pos 100))
