-- ===== src/Go/Duration.antt =====
-- `time.Duration`: nanoseconds in 64 bits, and the text that `String` gives it.
use Prim.Native.String.{◌++◌}
use climatik_project.Prelude.{
  ℕ, zero, suc, ◌+◌, ◌/◌, ◌%◌, ◌^◌, ◌≡◌, refl, String, Bool, false, ◌||◌, not, ltb, nat_eq,
  if◌then◌else◌,
}
use climatik_project.Prelude.Int.{ℤ, pos, negsuc, scale, wrap64}
use climatik_project.Go.Text.{print_nat}

-- `time.Second`
abbrev pub second : ℕ
second = 10 ^ 9

-- `time.Duration(n) * time.Second`
unfoldable pub seconds : ℤ → ℤ
unfolding wrap64
seconds n = wrap64 (scale n second)

-- `fmtFrac`: the digits of v/10^places after the point, with the point and without trailing zeros.
fraction : ℕ → ℕ → Bool → String → String
fraction zero v print out = if print then "." ++ out else out
fraction (suc places) v print out =
    let print' = print || not (nat_eq (v % 10) 0) in
    fraction places (v / 10) print' (if print' then print_nat (v % 10) ++ out else out)

abbrev hours : ℕ → String
hours h = if ltb 0 h then print_nat h ++ "h" else ""

abbrev minutes : ℕ → String
minutes m = if ltb 0 m then hours (m / 60) ++ (print_nat (m % 60) ++ "m") else ""

magnitude : ℕ → String
unfolding fraction
magnitude u =
    if nat_eq u 0
    then "0s"
    else if ltb u (10 ^ 3)
    then print_nat u ++ "ns"
    else if ltb u (10 ^ 6)
    then print_nat (u / 10 ^ 3) ++ (fraction 3 u false "" ++ "µs")
    else if ltb u second
    then print_nat (u / 10 ^ 6) ++ (fraction 6 u false "" ++ "ms")
    else minutes (u / second / 60)
      ++ (print_nat (u / second % 60) ++ (fraction 9 u false "" ++ "s"))

-- `Duration.String`
unfoldable pub print_duration : ℤ → String
unfolding magnitude
print_duration (pos n) = magnitude n
print_duration (negsuc n) = "-" ++ magnitude (n + 1)

print_duration_tests :
    (print_duration (seconds (pos 30)) ≡ "30s")
    × (print_duration (seconds (pos 3600)) ≡ "1h0m0s")
    × (print_duration (pos 90500000000) ≡ "1m30.5s")
    × (print_duration (pos 1500000) ≡ "1.5ms")
unfolding print_duration seconds print_nat
print_duration_tests = (refl, refl, refl, refl)
