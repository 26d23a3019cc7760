-- ===== src/Api/DeepCopy/Structs.antt =====
-- A deep copy of a struct without pointers is a new variable with the same value.
use climatik_project.Prelude.{ℕ, none, some, ◌≡◌, refl, arith, ap, nat_eq_refl}
use climatik_project.Go.Result.{ret}
use climatik_project.Go.Store.{Store, IsStore, Keeps, load-allocate, write, allocate}
use climatik_project.Api.DeepCopy.{
  Copy, copy_of, assign, absolute_copy, absolute_temperature_copy, spec_copy, status_copy,
  power_capping_copy, relative_copy, relative_temperature_copy, temperature_copy,
}

-- The copy of nil is nil; the copy of a variable stands at an address that was free, holds the
-- same value, and leaves every address in use as it was.
abbrev pub IsDeepCopy : {A : Type 0} → Copy A → Type 0
IsDeepCopy {A} copy =
    (s : Store A)
    → IsStore s
    → (copy none s ≡ ret (none, s))
      × ((p : ℕ) (a : A)
          → s.cell p ≡ some a
          → (q : ℕ) × (t : Store A) × (copy (some p) s ≡ ret (some q, t))
            × (s.cell q ≡ none)
            × (t.cell q ≡ some a)
            × Keeps s t
            × IsStore t)

module _ {A : Type 0} (zero_value : A) (fields : A → A) (same : (a : A) → fields a ≡ a) where
  copied : ℕ → Store A → A → Store A
  copied p s a = write s.next (fields a) (allocate zero_value s)

  copy_some :
      (s : Store A) (p : ℕ) (a : A)
      → IsStore s
      → s.cell p ≡ some a
      → copy_of zero_value (assign fields) (some p) s ≡ ret (some s.next, copied p s a)
  unfolding copied
  copy_some s p a valid used = rw (load-allocate s p a zero_value valid used)

  copied-Keeps : (s : Store A) (p : ℕ) (a : A) → IsStore s → Keeps s (copied p s a)
  unfolding copied
  copied-Keeps s p a valid q used = ground (arith, valid.free q)

  copied-IsStore : (s : Store A) (p : ℕ) (a : A) → IsStore s → IsStore (copied p s a)
  unfolding copied
  copied-IsStore s p a valid = record { free = λ q h. ground (arith, valid.free q) }

  assign-IsDeepCopy : IsDeepCopy (copy_of zero_value (assign fields))
  unfolding copied
  assign-IsDeepCopy s valid = (
    refl,
    λ p a used. (
      s.next,
      copied p s a,
      copy_some s p a valid used,
      valid.free s.next (omega arith),
      rw (nat_eq_refl s.next) (ap some (same a)),
      copied-Keeps s p a valid,
      copied-IsStore s p a valid,
    ),
  )

-- Every struct of the API without pointers is copied so.
pub structs-IsDeepCopy :
    IsDeepCopy absolute_copy
    × IsDeepCopy absolute_temperature_copy
    × IsDeepCopy spec_copy
    × IsDeepCopy status_copy
    × IsDeepCopy power_capping_copy
    × IsDeepCopy relative_copy
    × IsDeepCopy relative_temperature_copy
    × IsDeepCopy temperature_copy
unfolding absolute_copy absolute_temperature_copy spec_copy status_copy power_capping_copy
    relative_copy relative_temperature_copy temperature_copy
structs-IsDeepCopy = (
  assign-IsDeepCopy _ _ (λ a. refl),
  assign-IsDeepCopy _ _ (λ a. refl),
  assign-IsDeepCopy _ _ (λ a. refl),
  assign-IsDeepCopy _ _ (λ a. refl),
  assign-IsDeepCopy _ _ (λ a. refl),
  assign-IsDeepCopy _ _ (λ a. refl),
  assign-IsDeepCopy _ _ (λ a. refl),
  assign-IsDeepCopy _ _ (λ a. refl),
)
