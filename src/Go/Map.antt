-- ===== src/Go/Map.antt =====
-- A Go map with string keys as an association list. The order of the list is the order in which
-- one `range` loop happens to visit the entries; `insert` keeps the keys distinct.
pub mod Order
use Prim.Native.Nat.{Ordering}
use Prim.Native.String.{compare}
use climatik_project.Go.Text.{concat, join}
use climatik_project.Prelude.{
  String, ◌≡◌, refl, ◌≢◌, Bool, true, false, Option, none, some, List, [], ◌∷◌, map, arith, eq_iff,
  eq_refl, ◌==◌, if◌then◌else◌,
}

abbrev pub Map {ℓ} : Type ℓ → Type ℓ
Map V = List (String × V)

module _ {ℓ} {V : Type ℓ} where
  unfoldable pub lookup : String → Map V → Option V
  lookup key [] = none
  lookup key ((name, value) ∷ rest) = if name == key then some value else lookup key rest

  -- `m[k]`, with the zero value for a missing key
  unfoldable pub get : V → String → Map V → V
  get zero_value key m = elim (lookup key m) [ none ↦ zero_value | some value ↦ value ]

  -- `m[k] = v`
  unfoldable pub insert : String → V → Map V → Map V
  insert key new [] = (key, new) ∷ []
  insert key new ((name, old) ∷ rest) =
      if name == key then (key, new) ∷ rest else (name, old) ∷ insert key new rest

  pub lookup-insert :
      (k j : String) (v : V) (m : Map V)
      → lookup j (insert k v m) ≡ (if k == j then some v else lookup j m)
  unfolding lookup insert
  lookup-insert k j v [] = refl
  lookup-insert k j v ((name, old) ∷ rest) =
      ground (arith, lookup-insert k j v rest, eq_iff name k, eq_iff name j, eq_iff k j)

  pub lookup-insert_self : (k : String) (v : V) (m : Map V) → lookup k (insert k v m) ≡ some v
  lookup-insert_self k v m = simp (lookup-insert, eq_refl)

  pub lookup-insert_ne :
      (k j : String) (v : V) (m : Map V) → k ≢ j → lookup j (insert k v m) ≡ lookup j m
  lookup-insert_ne k j v m h = rw lookup-insert (ground (arith, eq_iff k j))

  pub get-nil : (zero_value : V) (k : String) → get zero_value k [] ≡ zero_value
  unfolding get lookup
  get-nil zero_value k = refl

  pub get-insert_self :
      (zero_value : V) (k : String) (v : V) (m : Map V) → get zero_value k (insert k v m) ≡ v
  unfolding get
  get-insert_self zero_value k v m = rw (lookup-insert_self k v m, get)

  pub get-insert_ne :
      (zero_value : V) (k j : String) (v : V) (m : Map V)
      → k ≢ j
      → get zero_value j (insert k v m) ≡ get zero_value j m
  unfolding get
  get-insert_ne zero_value k j v m h = rw (lookup-insert_ne k j v m h, get)

-- `fmt` prints a map in the order of its keys.
unfoldable pub insert_sorted : String × String → Map String → Map String
insert_sorted e [] = e ∷ []
insert_sorted e (d ∷ m) = elim (compare e.0 d.0) [
  | Ordering.gt ↦ d ∷ insert_sorted e m
  | _ ↦ e ∷ d ∷ m
]

unfoldable pub sort_entries : Map String → Map String
unfolding insert_sorted
sort_entries [] = []
sort_entries (e ∷ m) = insert_sorted e (sort_entries m)

abbrev show_entry : String × String → String
show_entry (k, v) = concat (k ∷ ":" ∷ v ∷ [])

-- `%v` of a map of strings.
unfoldable pub print_map : Map String → String
unfolding sort_entries
print_map m = concat ("map[" ∷ join " " (map show_entry (sort_entries m)) ∷ "]" ∷ [])

print_map_test : print_map (("gpu", "0") ∷ ("cpu", "1") ∷ []) ≡ "map[cpu:1 gpu:0]"
unfolding print_map join
print_map_test = refl
