-- ===== src/Operator/Number.antt =====
-- Python's `float` as a parameter, with what the operator uses of it, and the numbers of JSON.
pub mod Whole
use climatik_project.Prelude.{String, Bool, true, false, Option, none, some, ◌≡◌, if◌then◌else◌}
use climatik_project.Prelude.Int.{ℤ, pos, leb_ℤ}
use climatik_project.Go.Json.{Json, num, bool, str}
use climatik_project.Operator.Python.{
  Outcome, returned, raised, zero_division, overflow_error, value_error, type_error, ◌>>=◌,
}

pub record Number : Type 1 where
  pub F : Type 0
  -- `0`, also where a sum begins
  pub zero : F
  -- `float(i)`, which overflows beyond the largest float
  pub of_int : ℤ → Option F
  pub add : F → F → F
  pub mul : F → F → F
  pub div : F → F → F
  -- `i / k` of two integers, the float that is nearest
  pub ratio : ℤ → ℤ → Outcome F
  pub is_zero : F → Bool
  -- `x > y`, false at a NaN
  pub gt : F → F → Bool
  -- `int(x)`, which fails at infinity and at a NaN
  pub to_int : F → Outcome ℤ
  -- `float(text)`
  pub parse : String → Option F

module _ (n : Number) where
  abbrev pub or_overflow : Option n.F → Outcome n.F
  or_overflow none = raised overflow_error
  or_overflow (some x) = returned x

  -- A value that stands where a number is needed; a Boolean counts as 0 or 1.
  unfoldable pub number : Json → Outcome n.F
  number (num i) = or_overflow (n.of_int i)
  number (bool b) = or_overflow (n.of_int (if b then pos 1 else pos 0))
  number _ = raised type_error

  abbrev or_value_error : Option n.F → Outcome n.F
  or_value_error none = raised value_error
  or_value_error (some x) = returned x

  -- `float(value)`
  unfoldable pub float : Json → Outcome n.F
  unfolding number
  float (str s) = or_value_error (n.parse s)
  float v = number v

  -- `a / x`
  unfoldable pub true_div : Json → n.F → Outcome n.F
  true_div a x = do y ← number a; if n.is_zero x then raised zero_division else returned (n.div y x)
