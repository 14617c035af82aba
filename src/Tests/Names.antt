-- ===== src/Tests/Names.antt =====
-- Names that are read back, and a name that the database would cut.
use schema_forge_backend.Base.{◌≤◌, ◌≡◌, ◌↔◌, refl, [], ◌∷◌, ◌++◌, some, arith}
use schema_forge_backend.Text.{Text, lit}
use schema_forge_backend.Text.Trim.{trim, is_whitespace}
use schema_forge_backend.Text.Case.{to_ascii_lowercase, to_ascii_uppercase}
use schema_forge_backend.Text.Bytes.{len, len_utf8}
use schema_forge_backend.Domain.DataType
use schema_forge_backend.Domain.DataType.Laws.{data_type_from_str_iff}
use schema_forge_backend.Domain.Relationship
use schema_forge_backend.Domain.Relationship.Laws.{Spells, cardinality_from_str_iff}
use schema_forge_backend.Generator.Constraint.{constraint_name, full_name}
use schema_forge_backend.Generator.Constraint.Laws.{constraint_name_fits}

data_type_from_str_iff_example :
    (DataType.from_str (lit " BigInt") ≡ some DataType.big_int)
    ↔ (to_ascii_lowercase (trim (lit " BigInt")) ≡ DataType.as_str DataType.big_int)
data_type_from_str_iff_example = data_type_from_str_iff (lit " BigInt") DataType.big_int

cardinality_from_str_iff_example :
    ((Relationship.from_str (lit "one_to_many") ≡ some Relationship.one_to_many)
      ↔ Spells (to_ascii_uppercase (trim (lit "one_to_many"))) Relationship.one_to_many)
    × (Relationship.from_str (Relationship.as_str Relationship.one_to_many)
        ≡ some Relationship.one_to_many)
cardinality_from_str_iff_example =
    cardinality_from_str_iff (lit "one_to_many") Relationship.one_to_many

abbrev name_start : Text
name_start = b'f' ∷ b'k' ∷ []

name_start-small : len name_start ≤ 63
unfolding len len_utf8
name_start-small = ground arith

abbrev name_rest : Text
unfolding lit
name_rest = lit "_order_customer_id"

name_start-split : name_start ++ name_rest ≡ full_name (lit "order") (lit "customer_id")
unfolding full_name lit trim is_whitespace
name_start-split = refl

constraint_name_fits_example :
    (len (constraint_name (lit "order") (lit "customer_id")) ≤ 63)
    × ((cut : Text) × (constraint_name (lit "order") (lit "customer_id") ++ cut
          ≡ full_name (lit "order") (lit "customer_id")))
    × (len name_start ≤ len (constraint_name (lit "order") (lit "customer_id")))
constraint_name_fits_example =
    constraint_name_fits (lit "order") (lit "customer_id") name_start name_rest name_start-split
      name_start-small
