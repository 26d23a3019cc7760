-- ===== src/Go/Result.antt =====
-- Go's `(value, error)` results and its panics. An `error` is its text.
use climatik_project.Prelude.{String, Option, none, some, ◌≡◌, refl, ◌⊎◌, inl, inr}

abbrev pub Error : Type 0
Error = String

pub data Result {ℓ} (A : Type ℓ) : Type ℓ where
  ok : A → Result A
  err : Error → Result A

-- A call that returns, or panics with a message.
pub data Call {ℓ} (A : Type ℓ) : Type ℓ where
  ret : A → Call A
  panic : String → Call A

infixl 5 ◌>>=◌
abbrev pub ◌>>=◌ {ℓ κ} : {A : Type ℓ} {B : Type κ} → Call A → (A → Call B) → Call B
ret a >>= f = f a
panic m >>= f = panic m

-- `error` returned alone: nil, or an error.
abbrev pub Failure : Type 0
Failure = Option Error

pub Result-cases {ℓ} :
    {A : Type ℓ} (r : Result A) → ((a : A) × (r ≡ ok a)) ⊎ ((e : Error) × (r ≡ err e))
Result-cases (ok a) = inl (a, refl)
Result-cases (err e) = inr (e, refl)

pub Call-cases {ℓ} :
    {A : Type ℓ} (x : Call A) → ((a : A) × (x ≡ ret a)) ⊎ ((m : String) × (x ≡ panic m))
Call-cases (ret a) = inl (a, refl)
Call-cases (panic m) = inr (m, refl)

-- The error of a result, if it is one.
abbrev pub failure_of {ℓ} : {A : Type ℓ} → Result A → Failure
failure_of (ok a) = none
failure_of (err e) = some e
