-- ===== src/Go/Json.antt =====
-- JSON values, as `map[string]interface{}` and `encoding/json` hold them.
use climatik_project.Prelude.{
  String, ◌≡◌, refl, ◌≢◌, List, [], ◌∷◌, arith, eq_iff, eq_refl, ◌==◌, if◌then◌else◌,
}
use climatik_project.Prelude.Int.{ℤ}
use climatik_project.Prelude.{Bool}

mutual
  pub data Json : Type 0 where
    null : Json
    bool : Bool → Json
    num : ℤ → Json
    str : String → Json
    arr : Items → Json
    obj : Fields → Json

  pub data Items : Type 0 where
    nil : Items
    cons : Json → Items → Items

  pub data Fields : Type 0 where
    end : Fields
    field : String → Json → Fields → Fields

-- `m[k]`; a missing key is a nil interface
unfoldable pub field_of : String → Fields → Json
field_of k end = null
field_of k (field j v fs) = if j == k then v else field_of k fs

-- `m[k] = v`
unfoldable pub set_field : String → Json → Fields → Fields
set_field k v end = field k v end
set_field k v (field j w fs) = if j == k then field k v fs else field j w (set_field k v fs)

pub field_of-set_field :
    (k j : String) (v : Json) (fs : Fields)
    → field_of j (set_field k v fs) ≡ (if k == j then v else field_of j fs)
unfolding field_of set_field
field_of-set_field k j v end = refl
field_of-set_field k j v (field i w fs) =
    ground (arith, eq_iff k j, eq_iff i k, eq_iff i j, field_of-set_field k j v fs)

pub field_of-set_field_self :
    (k : String) (v : Json) (fs : Fields) → field_of k (set_field k v fs) ≡ v
field_of-set_field_self k v fs = simp (field_of-set_field, eq_refl)

pub field_of-set_field_ne :
    (k j : String) (v : Json) (fs : Fields) → k ≢ j → field_of j (set_field k v fs) ≡ field_of j fs
field_of-set_field_ne k j v fs h = rw field_of-set_field (ground (arith, eq_iff k j))

-- A `map[string]string` as an object.
unfoldable pub of_map : List (String × String) → Fields
of_map [] = end
of_map ((k, v) ∷ m) = field k (str v) (of_map m)
