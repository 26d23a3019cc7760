-- ===== src/Go/Map/Order.antt =====
-- A map has distinct keys, so what a lookup finds does not depend on the order of its entries.
use mathlib.Core.List.{Perm, Permᴰ}
use mathlib.Core.Path.{subst₂}
use mathlib.Core.Logic.{∥∥₁_elim}
use text.Mathlib.TextEquality.{IsScalar-prop}
use climatik_project.Prelude.{
  String, ◌≡◌, refl, none, [], ◌∷◌, ◌∙◌, sym, subst, arith, eq_iff, Bool-cases, inl, inr, ◌==◌,
  ==-eq-true, All, some, eq_refl,
}
use climatik_project.Go.Map.{Map, lookup, insert, lookup-insert}

module _ {ℓ} {V : Type ℓ} where
  -- No key twice.
  abbrev pub IsDistinct : Map V → Type ℓ
  IsDistinct [] = Unit
  IsDistinct ((k, v) ∷ m) = (lookup k m ≡ none) × IsDistinct m

  abbrev pub SameLookup : Map V → Map V → Type ℓ
  SameLookup m n = (k : String) → lookup k m ≡ lookup k n

  pub insert-IsDistinct :
      (k : String) (v : V) (m : Map V) → IsDistinct m → IsDistinct (insert k v m)
  unfolding insert lookup
  insert-IsDistinct k v [] h = (refl, tt)
  insert-IsDistinct k v ((name, old) ∷ m) (fresh, h) = elim (Bool-cases (name == k)) [
    | inl same ↦
        let here : name ≡ k = ==-eq-true name k same in
        rw same (subst (λ j. lookup j m ≡ none) here fresh, h)
    | inr other ↦ rw other (
      ground (arith, lookup-insert k name v m, eq_iff k name, eq_iff name k),
      insert-IsDistinct k v m h,
    )
  ]

  -- Each entry is what a lookup of its key finds.
  abbrev pub AreListed : Map V → Map V → Type ℓ
  AreListed m = All (λ (entry : String × V). lookup entry.0 m ≡ some entry.1)

  AreListed-cons :
      (k : String) (v : V) (m entries : Map V)
      → lookup k m ≡ none
      → AreListed m entries
      → AreListed ((k, v) ∷ m) entries
  unfolding lookup
  AreListed-cons k v m [] fresh h = tt
  AreListed-cons k v m ((j, w) ∷ entries) fresh (h, hs) = (
    elim (Bool-cases (k == j)) [
      | inl same ↦ let here : k ≡ j = ==-eq-true k j same in absurd (cc)
      | inr other ↦ rw other h
    ],
    AreListed-cons k v m entries fresh hs,
  )

  pub IsDistinct-AreListed : (m : Map V) → IsDistinct m → AreListed m m
  unfolding lookup
  IsDistinct-AreListed [] h = tt
  IsDistinct-AreListed ((k, v) ∷ m) (fresh, h) =
      (rw (eq_refl k), AreListed-cons k v m m fresh (IsDistinct-AreListed m h))

  same_head :
      (a : String × V) (m n : Map V)
      → IsDistinct (a ∷ m)
      → IsDistinct n × SameLookup m n
      → IsDistinct (a ∷ n) × SameLookup (a ∷ m) (a ∷ n)
  unfolding lookup
  same_head a m n (fresh, d) (d', same) =
      ((sym (same a.0) ∙ fresh, d'), λ k. ground (arith, same k))

  same_swap :
      (a b : String × V) (m : Map V)
      → IsDistinct (a ∷ b ∷ m)
      → IsDistinct (b ∷ a ∷ m) × SameLookup (a ∷ b ∷ m) (b ∷ a ∷ m)
  unfolding lookup
  same_swap a b m h = (
    ground (arith, eq_iff a.0 b.0, eq_iff b.0 a.0),
    λ k. ground (arith, eq_iff a.0 k, eq_iff b.0 k, eq_iff b.0 a.0),
  )

  Permᴰ-lookup : {m n : Map V} → Permᴰ m n → IsDistinct m → IsDistinct n × SameLookup m n
  Permᴰ-lookup Permᴰ.nil h = (h, λ k. refl)
  Permᴰ-lookup (Permᴰ.cons {a = a} {l₁ = m} {l₂ = n} e p) h =
      subst (λ b. IsDistinct (b ∷ n) × SameLookup (a ∷ m) (b ∷ n)) e
        (same_head a m n h (Permᴰ-lookup p h.1))
  Permᴰ-lookup (Permᴰ.swap {a = a} {b = b} {l = m} e e') h =
      subst₂ (λ b' a'. IsDistinct (a' ∷ b' ∷ m) × SameLookup (a ∷ b ∷ m) (a' ∷ b' ∷ m)) e e'
        (same_swap a b m h)
  Permᴰ-lookup (Permᴰ.trans p q) h =
      let (d, same) = Permᴰ-lookup p h in
      let (d', same') = Permᴰ-lookup q d in (d', λ k. same k ∙ same' k)

SameLookup-prop : (m n : Map String) → IsProp (SameLookup m n)
SameLookup-prop m n = hlevel IsScalar-prop

pub lookup-perm : {m n : Map String} → Perm m n → IsDistinct m → SameLookup m n
lookup-perm {m} {n} p h = ∥∥₁_elim p (SameLookup-prop m n) (λ q. (Permᴰ-lookup q h).1)
