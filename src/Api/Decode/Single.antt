-- ===== src/Api/Decode/Single.antt =====
-- One field written and read back.
use climatik_project.Prelude.{String, true, false, ◌≡◌, ◌==◌, arith, eq_iff, eq_refl}
use climatik_project.Prelude.Int.{ℤ, pos, negsuc}
use climatik_project.Go.Result.{ok}
use climatik_project.Go.Json.{null, Fields, field_of}
use climatik_project.Api.Encode.{int_field, string_field}
use climatik_project.Api.Decode.{fits, int_of, string_of}

pub field_of-int_field :
    (k name : String) (n : ℤ) (rest : Fields)
    → (name == k) ≡ false
    → field_of k (int_field name n rest) ≡ field_of k rest
unfolding field_of
field_of-int_field k name (pos n) rest h = ground (arith, eq_iff name k)
field_of-int_field k name (negsuc n) rest h = ground (arith, eq_iff name k)

pub field_of-string_field :
    (k name s : String) (rest : Fields)
    → (name == k) ≡ false
    → field_of k (string_field name s rest) ≡ field_of k rest
unfolding field_of
field_of-string_field k name s rest h = ground (arith, eq_iff name k)

pub int_of-int_field :
    (name : String) (n : ℤ) (rest : Fields)
    → field_of name rest ≡ null
    → fits n ≡ true
    → int_of (field_of name (int_field name n rest)) ≡ ok n
unfolding field_of int_of
int_of-int_field name (pos n) rest h k = ground (arith, eq_refl name)
int_of-int_field name (negsuc n) rest h k = ground (arith, eq_refl name)

pub string_of-string_field :
    (name s : String) (rest : Fields)
    → field_of name rest ≡ null
    → string_of (field_of name (string_field name s rest)) ≡ ok s
unfolding field_of string_of
string_of-string_field name s rest h = ground (arith, eq_refl name, eq_iff s "")
