-- ===== src/Controller/Power/Window.antt =====
-- The sample window: for which numbers of seconds the watch waits that long, and for which the
-- ticker cannot be made.
use climatik_project.Prelude.{
  ℕ, ◌*◌, ◌≤◌, ◌<◌, ◌≡◌, refl, ◌⊎◌, inl, inr, true, false, arith, ltb, leb, ◌&&◌, Bool-cases, List,
  String,
}
use climatik_project.Prelude.Int.{ℤ, pos, negsuc, is_pos, scale}
use climatik_project.Go.Duration.{seconds, second}
use climatik_project.Go.Result.{ret, panic}
use climatik_project.Go.Float.{Float}
use climatik_project.Controller.Metrics.{Querier}
use climatik_project.Controller.Power.{Event, watch_loop, watch_pod_power_usage}

-- The largest number of seconds that a duration holds.
abbrev pub max_seconds : ℕ
max_seconds = 9223372036

seconds-exact : (n : ℕ) → n ≤ max_seconds → seconds (pos n) ≡ pos (n * second)
unfolding seconds
seconds-exact n h = ground arith

seconds_overflow :
    (n : ℕ) → max_seconds < n → n ≤ 2 * max_seconds → is_pos (seconds (pos n)) ≡ false
unfolding seconds
seconds_overflow n h k = ground arith

seconds_negative : (n : ℕ) → n < max_seconds → is_pos (seconds (negsuc n)) ≡ false
unfolding seconds
seconds_negative n h = ground arith

-- Sample windows that fit: at least one second, and no more than a duration holds.
abbrev pub IsUsable : ℤ → Type 0
IsUsable (pos n) = (0 < n) × (n ≤ max_seconds)
IsUsable (negsuc n) = ⊥

-- The windows for which the claim is made: up to twice what a duration holds.
abbrev pub IsInRange : ℤ → Type 0
IsInRange (pos n) = n ≤ 2 * max_seconds
IsInRange (negsuc n) = n < max_seconds

unusable_window :
    (n : ℕ) → n ≤ 2 * max_seconds → (n ≡ 0) ⊎ (max_seconds < n) → is_pos (seconds (pos n)) ≡ false
unusable_window n h (inl e) = rw e (unfold seconds in refl)
unusable_window n h (inr over) = seconds_overflow n over h

seconds_cases :
    (s : ℤ)
    → IsInRange s
    → (IsUsable s × (seconds s ≡ scale s second) × (is_pos (scale s second) ≡ true))
      ⊎ ((¬ IsUsable s) × (is_pos (seconds s) ≡ false))
seconds_cases (negsuc n) h = inr (λ u. u, seconds_negative n h)
seconds_cases (pos n) h = elim (Bool-cases (ltb 0 n && leb n max_seconds)) [
  | inl usable ↦ inl (ground arith, seconds-exact n (ground arith), ground arith)
  | inr unusable ↦ inr (ground arith, unusable_window n h (ground arith))
]

module _ (f : Float) (query : Querier f) (pod_name : String) (d : ℤ) (events : List Event) where
  watch_positive :
      is_pos d ≡ true
      → watch_pod_power_usage f query pod_name d events
        ≡ ret (watch_loop f query pod_name d events f.zero)
  unfolding watch_pod_power_usage
  watch_positive h = rw h

  watch_not_positive :
      is_pos d ≡ false
      → watch_pod_power_usage f query pod_name d events
        ≡ panic "non-positive interval for NewTicker"
  unfolding watch_pod_power_usage
  watch_not_positive h = rw h

-- The watch of a pod waits exactly the sample window, in nanoseconds, if the window lies between
-- 1 and 9223372036 seconds; for every other window between -9223372036 and 18446744072 seconds,
-- 0 among them, the goroutine panics in NewTicker, whatever happens.
pub watch_window :
    (f : Float) (query : Querier f) (pod_name : String) (s : ℤ) (events : List Event)
    → IsInRange s
    → (IsUsable s
        × (watch_pod_power_usage f query pod_name (seconds s) events
            ≡ ret (watch_loop f query pod_name (scale s second) events f.zero)))
      ⊎ ((¬ IsUsable s)
          × (watch_pod_power_usage f query pod_name (seconds s) events
              ≡ panic "non-positive interval for NewTicker"))
watch_window f query pod_name s events h = elim (seconds_cases s h) [
  | inl (usable, exact, positive) ↦
      inl (usable, rw exact (watch_positive f query pod_name (scale s second) events positive))
  | inr (unusable, bad) ↦ inr (unusable, watch_not_positive f query pod_name (seconds s) events bad)
]
