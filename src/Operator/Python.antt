-- ===== src/Operator/Python.antt =====
-- What the operator uses of Python: exceptions, and the values that JSON objects turn into, a
-- dictionary for an object and a list for an array.
use climatik_project.Prelude.{
  String, Option, none, some, List, [], ◌∷◌, ◌≡◌, refl, ◌⊎◌, inl, inr, arith, eq_iff, ◌==◌,
  if◌then◌else◌,
}
use climatik_project.Go.Json.{Json, str, arr, obj, Items, nil, cons, Fields, end, field, set_field}

pub data Exception : Type 0 where
  zero_division overflow_error value_error type_error key_error index_error : Exception
  attribute_error : Exception
  -- of the Kubernetes client, of the Prometheus client, and `kopf.PermanentError`
  api_exception request_exception permanent_error : String → Exception

pub data Outcome {ℓ} (A : Type ℓ) : Type ℓ where
  returned : A → Outcome A
  raised : Exception → Outcome A

infixl 5 ◌>>=◌
abbrev pub ◌>>=◌ {ℓ κ} : {A : Type ℓ} {B : Type κ} → Outcome A → (A → Outcome B) → Outcome B
returned a >>= f = f a
raised e >>= f = raised e

pub Outcome-cases {ℓ} :
    {A : Type ℓ} (r : Outcome A) → ((a : A) × (r ≡ returned a)) ⊎ ((e : Exception) × (r ≡ raised e))
Outcome-cases (returned a) = inl (a, refl)
Outcome-cases (raised e) = inr (e, refl)

-- The value of a key, if the dictionary has it.
unfoldable pub find : String → Fields → Option Json
find k end = none
find k (field j v fs) = if j == k then some v else find k fs

abbrev found : Option Json → Outcome Json
found none = raised key_error
found (some v) = returned v

-- `value[k]` for a text `k`
unfoldable pub item : String → Json → Outcome Json
item k (obj fs) = found (find k fs)
item k _ = raised type_error

-- A value where the program needs a text.
abbrev pub text : Json → Outcome String
text (str s) = returned s
text _ = raised type_error

-- A value of which a method of texts is called.
abbrev pub receiver : Json → Outcome String
receiver (str s) = returned s
receiver _ = raised attribute_error

-- A value of which `get` is called.
abbrev pub dictionary : Json → Outcome Fields
dictionary (obj fs) = returned fs
dictionary _ = raised attribute_error

abbrev pub fields : Json → Outcome Fields
fields (obj fs) = returned fs
fields _ = raised type_error

unfoldable pub to_list : Items → List Json
to_list nil = []
to_list (cons v vs) = v ∷ to_list vs

-- The elements over which `for` runs; a text or a dictionary that is not empty gives texts, which
-- the program then cannot index.
unfoldable pub elements : Json → Outcome (List Json)
elements (arr vs) = returned (to_list vs)
elements (obj end) = returned []
elements (str s) = if s == "" then returned [] else raised type_error
elements _ = raised type_error

abbrev or_default : Json → Option Json → Json
or_default d none = d
or_default d (some v) = v

-- `dictionary.get(k, d)`
unfoldable pub get_or : Json → String → Fields → Json
get_or d k fs = or_default d (find k fs)

pub find-set_field :
    (k j : String) (v : Json) (fs : Fields)
    → find j (set_field k v fs) ≡ (if k == j then some v else find j fs)
unfolding find set_field
find-set_field k j v end = refl
find-set_field k j v (field i w fs) =
    ground (arith, eq_iff k j, eq_iff i k, eq_iff i j, find-set_field k j v fs)
