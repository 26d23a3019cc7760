-- ===== src/Prelude/Int.antt =====
-- Go's `int` and `time.Duration` (64 bits) as integers over the native numbers, with the
-- wrap-around of machine arithmetic written out.
use Prim.Native.Nat.{ℕ, ◌+◌, ◌-◌, ◌*◌, ◌%◌, ◌^◌, ◌<◌}
use mathlib.Core.Path.{◌≡◌}
use mathlib.Core.Bool.{Bool, true, false}
use native.Mathlib.Omega.{arith}
use climatik_project.Prelude.Tests.{ltb, leb, if◌then◌else◌}

-- `negsuc n` is -(n + 1).
pub data ℤ : Type 0 where
  pos : ℕ → ℤ
  negsuc : ℕ → ℤ

-- `0 < a`
abbrev pub is_pos : ℤ → Bool
is_pos (pos n) = ltb 0 n
is_pos (negsuc n) = false

-- `a ≤ b`
abbrev pub leb_ℤ : ℤ → ℤ → Bool
leb_ℤ (pos a) (pos b) = leb a b
leb_ℤ (pos a) (negsuc b) = false
leb_ℤ (negsuc a) (pos b) = true
leb_ℤ (negsuc a) (negsuc b) = leb b a

-- The exact product with a positive number.
abbrev pub scale : ℤ → ℕ → ℤ
scale (pos n) k = pos (n * k)
scale (negsuc n) k = negsuc ((n + 1) * k - 1)

-- The signed reading of a 64-bit pattern.
abbrev pub to_signed : ℕ → ℤ
to_signed r = if ltb r (2 ^ 63) then pos r else negsuc (2 ^ 64 - 1 - r)

-- What a 64-bit register keeps of an integer.
unfoldable pub wrap64 : ℤ → ℤ
wrap64 (pos n) = to_signed (n % 2 ^ 64)
wrap64 (negsuc n) = to_signed (2 ^ 64 - 1 - n % 2 ^ 64)

-- A value that fits is kept.
pub wrap64-pos : (n : ℕ) → n < 2 ^ 63 → wrap64 (pos n) ≡ pos n
unfolding wrap64
wrap64-pos n h = ground arith

pub wrap64-negsuc : (n : ℕ) → n < 2 ^ 63 → wrap64 (negsuc n) ≡ negsuc n
unfolding wrap64
wrap64-negsuc n h = ground arith
