-- ===== src/Go/Store.antt =====
-- The variables of one type that pointers point to, by their address.
use climatik_project.Prelude.{
  ℕ, ◌+◌, ◌≤◌, Option, none, some, nat_eq, false, if◌then◌else◌, ◌≡◌, ◌≢◌, arith,
}
use climatik_project.Go.Result.{Call, ret, panic}

pub record Store {ℓ} (A : Type ℓ) : Type ℓ where
  -- the next address that is free
  pub next : ℕ
  pub cell : ℕ → Option A

module _ {ℓ} {A : Type ℓ} where
  -- `*p`
  unfoldable pub load : Store A → ℕ → Call A
  load s p = elim (s.cell p) [
    | some a ↦ ret a
    | none ↦ panic "invalid memory address or nil pointer dereference"
  ]

  -- `*p = a`
  abbrev pub write : ℕ → A → Store A → Store A
  write p a s = record s { cell = λ q. if nat_eq p q then some a else s.cell q }

  -- `new(T)`, for a zero value
  abbrev pub allocate : A → Store A → Store A
  allocate a s = record (write s.next a s) { next = s.next + 1 }

  -- Nothing is stored at an address that is free.
  pub record IsStore (s : Store A) : Type ℓ where
    pub free : (p : ℕ) → s.next ≤ p → s.cell p ≡ none

  -- The addresses in use keep what they hold.
  abbrev pub Keeps : Store A → Store A → Type ℓ
  Keeps s t = (p : ℕ) → s.cell p ≢ none → t.cell p ≡ s.cell p

  -- An address in use is not the free one.
  pub used-ne-next :
      (s : Store A) (p : ℕ) (a : A) → IsStore s → s.cell p ≡ some a → nat_eq s.next p ≡ false
  used-ne-next s p a valid used = ground (arith, valid.free p)

  pub load_lem : (s : Store A) (p : ℕ) (a : A) → s.cell p ≡ some a → load s p ≡ ret a
  unfolding load
  load_lem s p a used = rw (used, load)

  -- A variable in use is still there after an allocation.
  pub load-allocate :
      (s : Store A) (p : ℕ) (a new : A)
      → IsStore s
      → s.cell p ≡ some a
      → load (allocate new s) p ≡ ret a
  load-allocate s p a new valid used =
      load_lem (allocate new s) p a (rw (used-ne-next s p a valid used) used)
