-- ===== src/Operator/Number/Whole.antt =====
-- Whole numbers in place of floating-point ones.
use climatik_project.Prelude.{ℕ, ◌+◌, ◌*◌, ◌/◌, some, if◌then◌else◌, ltb, nat_eq}
use climatik_project.Prelude.Int.{ℤ, pos, negsuc}
use climatik_project.Go.Text.{atoi_value}
use climatik_project.Operator.Python.{Outcome, returned, raised, zero_division}
use climatik_project.Operator.Number.{Number}

abbrev pub from_int : ℤ → ℕ
from_int (pos i) = i
from_int (negsuc i) = 0

-- Rounded towards zero.
abbrev whole_ratio : ℤ → ℤ → Outcome ℕ
whole_ratio i k =
    if nat_eq (from_int k) 0 then raised zero_division else returned (from_int i / from_int k)

abbrev pub whole : Number
whole = record {
  F = ℕ;
  zero = 0;
  of_int = λ i. some (from_int i);
  add = λ x y. x + y;
  mul = λ x y. x * y;
  div = λ x y. x / y;
  ratio = whole_ratio;
  is_zero = λ x. nat_eq x 0;
  gt = λ x y. ltb y x;
  to_int = λ x. returned (pos x);
  parse = λ s. some (from_int (atoi_value s));
}
