-- ===== src/Go/Text.antt =====
-- Text: what `fmt.Sprintf`, `strings.Join` and `strconv.Atoi` do where the program calls them.
-- A Go string is a native `String` (valid UTF-8); `len` and `slice` count bytes, as in Go.
use Prim.Native.String.{◌++◌}
use mathlib.Core.Logic.{dite}
use mathlib.Core.WellFounded.{Acc}
use native.Mathlib.Decide.{dec_lt}
use climatik_project.Prelude.{
  ℕ, zero, suc, ◌+◌, ◌-◌, ◌*◌, ◌/◌, ◌%◌, ◌^◌, ◌<◌, ◌≡◌, refl, Bool, ◌&&◌, String, Char, code,
  Option, none, some, List, [], ◌∷◌, arith, ltb, leb, nat_eq, if◌then◌else◌,
}
use climatik_project.Prelude.Int.{ℤ, pos, negsuc}

-- `fmt.Sprintf` with its format cut into its literal pieces and its formatted arguments.
abbrev pub concat : List String → String
concat [] = ""
concat (s ∷ []) = s
concat (s ∷ t ∷ ts) = s ++ concat (t ∷ ts)

-- `strings.Join`
unfoldable pub join : String → List String → String
join sep [] = ""
join sep (s ∷ []) = s
join sep (s ∷ t ∷ ts) = s ++ (sep ++ join sep (t ∷ ts))

pub join-cons-cons :
    (sep s t : String) (ts : List String) → join sep (s ∷ t ∷ ts) ≡ s ++ (sep ++ join sep (t ∷ ts))
unfolding join
join-cons-cons sep s t ts = refl

abbrev digit : ℕ → String
digit d =
    if nat_eq d 0
    then "0"
    else if nat_eq d 1
    then "1"
    else if nat_eq d 2
    then "2"
    else if nat_eq d 3
    then "3"
    else if nat_eq d 4
    then "4"
    else if nat_eq d 5
    then "5"
    else if nat_eq d 6
    then "6"
    else if nat_eq d 7
    then "7"
    else if nat_eq d 8
    then "8"
    else "9"

acc_below : (k n : ℕ) → n < k → Acc ◌<◌ n
acc_below zero n h = elim h [ ]
acc_below (suc k) n h = Acc.intro n (λ m lt. acc_below k m (omega arith))

print_acc : (n : ℕ) → Acc ◌<◌ n → String
print_acc n (Acc.intro _ smaller) =
    dite (dec_lt 9 n) (λ h. print_acc (n / 10) (smaller (n / 10) (omega arith)) ++ digit (n % 10))
      (λ _. digit n)

-- `%d` of a number that is not negative.
unfoldable pub print_nat : ℕ → String
unfolding print_acc acc_below dec_lt
print_nat n = print_acc n (acc_below (suc n) n (omega arith))

-- `%d`
unfoldable pub print_int : ℤ → String
unfolding print_nat
print_int (pos n) = print_nat n
print_int (negsuc n) = "-" ++ print_nat (n + 1)

abbrev is_digit : Char → Bool
is_digit c = leb b'0' (code c) && leb (code c) b'9'

-- The digits of `strconv.ParseInt`, exactly; `none` is a syntax error.
read_digits : String → ℕ → Option ℕ
read_digits String.[] n = some n
read_digits (String.◌∷◌ c s) n =
    let rest = read_digits s (n * 10 + (code c - b'0')) in if is_digit c then rest else none

-- At least one digit.
read_nat : String → Option ℕ
unfolding read_digits
read_nat String.[] = none
read_nat (String.◌∷◌ c s) = read_digits (String.◌∷◌ c s) 0

-- The value that `strconv.Atoi` returns beside its error: 0 for a syntax error, and the nearest
-- bound of int64 for a value out of range.
clamp_pos : Option ℕ → ℤ
clamp_pos none = pos 0
clamp_pos (some n) = if ltb n (2 ^ 63) then pos n else pos (2 ^ 63 - 1)

clamp_neg : Option ℕ → ℤ
clamp_neg none = pos 0
clamp_neg (some n) =
    if nat_eq n 0 then pos 0 else if leb n (2 ^ 63) then negsuc (n - 1) else negsuc (2 ^ 63 - 1)

unfoldable pub atoi_value : String → ℤ
unfolding read_nat clamp_pos clamp_neg
atoi_value String.[] = pos 0
atoi_value (String.◌∷◌ c s) =
    if nat_eq (code c) b'-'
    then clamp_neg (read_nat s)
    else if nat_eq (code c) b'+'
    then clamp_pos (read_nat s)
    else clamp_pos (read_nat (String.◌∷◌ c s))

print_tests :
    (print_int (pos 0) ≡ "0") × (print_int (pos 1090) ≡ "1090") × (print_int (negsuc 41) ≡ "-42")
unfolding print_int
print_tests = (refl, refl, refl)

atoi_tests :
    (atoi_value "75" ≡ pos 75)
    × (atoi_value "-3" ≡ negsuc 2)
    × (atoi_value "7x" ≡ pos 0)
    × (atoi_value "" ≡ pos 0)
    × (atoi_value "99999999999999999999" ≡ pos (2 ^ 63 - 1))
unfolding atoi_value
atoi_tests = (refl, refl, refl, refl, refl)
