-- ===== src/Go/Float.antt =====
-- `float64`: the type and the operations that the program uses, as a parameter, and the facts of
-- IEEE 754 arithmetic that the theorems on power caps rest on.
pub mod Whole
use climatik_project.Prelude.{String, Bool, true, false, ◌≡◌}
use climatik_project.Prelude.Int.{ℤ, pos, leb_ℤ}

pub record Float : Type 1 where
  pub F : Type 0
  -- the constant `float64(0)`
  pub zero : F
  -- `float64(i)`
  pub of_int : ℤ → F
  pub mul : F → F → F
  pub div : F → F → F
  -- `x > y`, false at a NaN
  pub gt : F → F → Bool
  -- `int(x)`
  pub to_int : F → ℤ
  -- `%.2f`
  pub fixed2 : F → String

-- Rounding is monotone, so multiplying a number that is not below zero by a larger integer, and
-- dividing a larger number by a positive integer, give a result that is not smaller.
pub record FloatLaws (f : Float) : Type 0 where
  pub gt_irreflexive : (x : f.F) → f.gt x x ≡ false
  pub gt_asymmetric : (x y : f.F) → f.gt x y ≡ true → f.gt y x ≡ false
  pub mul_mono :
      (x : f.F) (i j : ℤ)
      → f.gt f.zero x ≡ false
      → leb_ℤ (pos 0) i ≡ true
      → leb_ℤ i j ≡ true
      → f.gt (f.mul x (f.of_int i)) (f.mul x (f.of_int j)) ≡ false
  pub div_mono :
      (x y : f.F) (n : ℤ)
      → leb_ℤ (pos 1) n ≡ true
      → f.gt x y ≡ false
      → f.gt (f.div x (f.of_int n)) (f.div y (f.of_int n)) ≡ false
