-- ===== src/Api/Schema/Values.antt =====
-- What `encoding/json` makes of one value that has the type of its schema.
use climatik_project.Prelude.{String, Bool, true, false, ◌||◌, ◌≡◌, refl, ap, subst, arith}
use climatik_project.Prelude.Int.{ℤ}
use climatik_project.Go.Result.{Result, ok}
use climatik_project.Go.Json.{Json, null, num, str, obj, Fields, end, field_of}
use climatik_project.Api.Decode.{int_of, string_of, fields_of}
use climatik_project.Api.Schema.{
  Schema, text_type, integer_type, any_object, property, is_null, has_type,
}

-- The value is missing or has the type.
abbrev pub Accepts : Schema → Json → Type 0
Accepts s v = (is_null v || has_type s v) ≡ true

pub property-Accepts :
    (k : String) (s rest : Schema) (fs : Fields)
    → has_type (property k s rest) (obj fs) ≡ true
    → Accepts s (field_of k fs) × (has_type rest (obj fs) ≡ true)
unfolding has_type
property-Accepts k s rest fs h = ground arith

int_of-ok : (v : Json) → Accepts integer_type v → (n : ℤ) × (int_of v ≡ ok n)
unfolding has_type int_of
int_of-ok null h = (_, refl)
int_of-ok (num n) h = (n, ground arith)
int_of-ok v h = absurd (cc)

string_of-ok : (v : Json) → Accepts text_type v → (s : String) × (string_of v ≡ ok s)
unfolding has_type string_of
string_of-ok null h = (_, refl)
string_of-ok (str s) h = (s, refl)
string_of-ok v h = absurd (cc)

abbrev pub is_object : Schema → Bool
is_object text_type = false
is_object integer_type = false
is_object any_object = true
is_object (property k s rest) = is_object rest

has_type-end : (s : Schema) → is_object s ≡ true → has_type s (obj end) ≡ true
unfolding has_type field_of
has_type-end text_type o = absurd (cc)
has_type-end integer_type o = absurd (cc)
has_type-end any_object o = refl
has_type-end (property k s rest) o = has_type-end rest o

object_only :
    (s : Schema) (v : Json)
    → is_object s ≡ true
    → has_type s v ≡ true
    → (fs : Fields) × (v ≡ obj fs)
unfolding has_type
object_only text_type v o h = absurd (cc)
object_only integer_type v o h = absurd (cc)
object_only any_object (obj fs) o h = (fs, refl)
object_only any_object v o h = absurd (cc)
object_only (property k s rest) (obj fs) o h = (fs, refl)
object_only (property k s rest) v o h = absurd (cc)

pub fields_of-ok :
    (s : Schema) (v : Json)
    → is_object s ≡ true
    → Accepts s v
    → (fs : Fields) × (fields_of v ≡ ok fs) × (has_type s (obj fs) ≡ true)
unfolding fields_of
fields_of-ok s null o h = (end, refl, has_type-end s o)
fields_of-ok s v o h =
    let (fs, same) = object_only s v o h in
    (fs, ap fields_of same, subst (λ t. has_type s t ≡ true) same h)

-- An integer under a key.
pub int_at :
    (k : String) (rest : Schema) (fs : Fields)
    → has_type (property k integer_type rest) (obj fs) ≡ true
    → ((n : ℤ) × (int_of (field_of k fs) ≡ ok n)) × (has_type rest (obj fs) ≡ true)
int_at k rest fs h =
    let (v, later) = property-Accepts k integer_type rest fs h in
    (int_of-ok (field_of k fs) v, later)

-- A text under a key.
pub string_at :
    (k : String) (rest : Schema) (fs : Fields)
    → has_type (property k text_type rest) (obj fs) ≡ true
    → ((s : String) × (string_of (field_of k fs) ≡ ok s)) × (has_type rest (obj fs) ≡ true)
string_at k rest fs h =
    let (v, later) = property-Accepts k text_type rest fs h in
    (string_of-ok (field_of k fs) v, later)

-- What is decoded from the object under a key.
pub decoded_at {ℓ} :
    {A : Type ℓ} (decode : Fields → Result A) (k : String) (s rest : Schema) (fs : Fields)
    → is_object s ≡ true
    → ((gs : Fields) → has_type s (obj gs) ≡ true → (a : A) × (decode gs ≡ ok a))
    → has_type (property k s rest) (obj fs) ≡ true
    → ((gs : Fields) × (a : A) × (fields_of (field_of k fs) ≡ ok gs) × (decode gs ≡ ok a))
      × (has_type rest (obj fs) ≡ true)
decoded_at decode k s rest fs o f h =
    let (v, later) = property-Accepts k s rest fs h in
    let (gs, there, typed) = fields_of-ok s (field_of k fs) o v in
    let (a, fine) = f gs typed in ((gs, a, there, fine), later)
