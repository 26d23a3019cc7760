-- ===== src/Go/Float/Whole.antt =====
-- Whole numbers in place of floating-point ones: they satisfy the laws that are assumed.
use Prim.Native.String.{◌++◌}
use climatik_project.Prelude.{
  ℕ, ◌*◌, ◌/◌, ◌≤◌, ◌<◌, ◌+◌, true, false, ◌≡◌, arith, ltb, leb, inl, inr, Bool-cases,
}
use climatik_project.Prelude.Int.{ℤ, pos, negsuc, leb_ℤ}
use climatik_project.Go.Text.{print_nat}
use climatik_project.Go.Float.{Float, FloatLaws}

abbrev from_int : ℤ → ℕ
from_int (pos n) = n
from_int (negsuc n) = 0

abbrev pub whole : Float
whole = record {
  F = ℕ;
  zero = 0;
  of_int = from_int;
  mul = λ x y. x * y;
  div = λ x y. x / y;
  gt = λ x y. ltb y x;
  to_int = pos;
  fixed2 = λ x. print_nat x ++ ".00";
}

mul_le : (x i j : ℕ) → i ≤ j → x * i ≤ x * j
mul_le x i j h = grind arith

div_le : (x y n : ℕ) → 0 < n → x ≤ y → x / n ≤ y / n
div_le x y n h k = elim (Bool-cases (leb (x / n) (y / n))) [
  | inl fine ↦ ground arith
  | inr over ↦ omega (arith, mul_le n (y / n + 1) (x / n) (ground arith))
]

whole_mul_mono :
    (x : ℕ) (i j : ℤ)
    → leb_ℤ (pos 0) i ≡ true
    → leb_ℤ i j ≡ true
    → ltb (x * from_int j) (x * from_int i) ≡ false
whole_mul_mono x (pos i) (pos j) h k = ground (arith, mul_le x i j (ground arith))
whole_mul_mono x (pos i) (negsuc j) h k = cc
whole_mul_mono x (negsuc i) j h k = cc

whole_div_mono :
    (x y : ℕ) (n : ℤ)
    → leb_ℤ (pos 1) n ≡ true
    → ltb y x ≡ false
    → ltb (y / from_int n) (x / from_int n) ≡ false
whole_div_mono x y (pos n) h k = ground (arith, div_le x y n (ground arith) (ground arith))
whole_div_mono x y (negsuc n) h k = cc

pub whole-FloatLaws : FloatLaws whole
whole-FloatLaws = record {
  gt_irreflexive = λ x. ground arith;
  gt_asymmetric = λ x y h. ground arith;
  mul_mono = λ x i j above h k. whole_mul_mono x i j h k;
  div_mono = λ x y n h k. whole_div_mono x y n h k;
}
