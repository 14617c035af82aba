-- ===== src/Exchange/Names.antt =====
-- src/module/schema/core/service/exchange/names.rs: the names that a JSON file writes for a type and a
-- cardinality, and their reading.
use schema_forge_backend.Base.{
  ◌≡◌, refl, ◌||◌, ◌==◌, nat_eq, list_eq, list_beq, [], ◌∷◌, Option, some, find,
}
use schema_forge_backend.Text.{Text, lit}
use schema_forge_backend.Text.Trim.{trim, trim_end, trim_start, is_whitespace}
use schema_forge_backend.Text.Case.{eq_ignore_ascii_case, to_ascii_lowercase, to_ascii_lower}
use schema_forge_backend.Domain.DataType.{
  DataTypeKind, text, varchar, char, small_int, integer, big_int, numeric, real, double_precision,
  boolean, date, time, timestamp, timestamp_tz, uuid, json, jsonb, bytea, variants, as_str,
}
use schema_forge_backend.Domain.Relationship.{
  Cardinality, one_to_one, one_to_many, many_to_many, as_str as symbol,
}
use schema_forge_backend.Exchange.Sql.Types.{kind_of, spellings}

unfoldable pub kind_name : DataTypeKind → Text
unfolding lit
kind_name text = lit "DATA_TYPE_KIND_TEXT"
kind_name varchar = lit "DATA_TYPE_KIND_VARCHAR"
kind_name char = lit "DATA_TYPE_KIND_CHAR"
kind_name small_int = lit "DATA_TYPE_KIND_SMALL_INT"
kind_name integer = lit "DATA_TYPE_KIND_INTEGER"
kind_name big_int = lit "DATA_TYPE_KIND_BIG_INT"
kind_name numeric = lit "DATA_TYPE_KIND_NUMERIC"
kind_name real = lit "DATA_TYPE_KIND_REAL"
kind_name double_precision = lit "DATA_TYPE_KIND_DOUBLE_PRECISION"
kind_name boolean = lit "DATA_TYPE_KIND_BOOLEAN"
kind_name date = lit "DATA_TYPE_KIND_DATE"
kind_name time = lit "DATA_TYPE_KIND_TIME"
kind_name timestamp = lit "DATA_TYPE_KIND_TIMESTAMP"
kind_name timestamp_tz = lit "DATA_TYPE_KIND_TIMESTAMPTZ"
kind_name uuid = lit "DATA_TYPE_KIND_UUID"
kind_name json = lit "DATA_TYPE_KIND_JSON"
kind_name jsonb = lit "DATA_TYPE_KIND_JSONB"
kind_name bytea = lit "DATA_TYPE_KIND_BYTEA"

unfoldable pub kind_from_name : Text → Option DataTypeKind
unfolding kind_name trim eq_ignore_ascii_case as_str
kind_from_name name =
    find (λ kind. kind_name kind == trim name || eq_ignore_ascii_case (as_str kind) (trim name))
      variants

unfoldable pub cardinality_name : Cardinality → Text
unfolding lit
cardinality_name one_to_one = lit "CARDINALITY_ONE_TO_ONE"
cardinality_name one_to_many = lit "CARDINALITY_ONE_TO_MANY"
cardinality_name many_to_many = lit "CARDINALITY_MANY_TO_MANY"

unfoldable pub cardinality_from_name : Text → Option Cardinality
unfolding cardinality_name trim eq_ignore_ascii_case symbol
cardinality_from_name name =
    find (λ c. cardinality_name c == trim name || eq_ignore_ascii_case (symbol c) (trim name))
      (one_to_one ∷ one_to_many ∷ many_to_many ∷ [])

-- Each kind of type is read back from each of its names: from the one that a JSON file has, from its
-- own by the reader of JSON files, and from its own by the reader of scripts.
pub kind_from_name-kind_name :
    (kind : DataTypeKind)
    → (kind_from_name (kind_name kind) ≡ some kind)
      × ((kind_from_name (as_str kind) ≡ some kind) × (kind_of (as_str kind) ≡ some kind))
unfolding kind_from_name kind_name kind_of as_str lit list_beq trim trim_end trim_start
    is_whitespace eq_ignore_ascii_case to_ascii_lowercase to_ascii_lower spellings
kind_from_name-kind_name text = (refl, (refl, refl))
kind_from_name-kind_name varchar = (refl, (refl, refl))
kind_from_name-kind_name char = (refl, (refl, refl))
kind_from_name-kind_name small_int = (refl, (refl, refl))
kind_from_name-kind_name integer = (refl, (refl, refl))
kind_from_name-kind_name big_int = (refl, (refl, refl))
kind_from_name-kind_name numeric = (refl, (refl, refl))
kind_from_name-kind_name real = (refl, (refl, refl))
kind_from_name-kind_name double_precision = (refl, (refl, refl))
kind_from_name-kind_name boolean = (refl, (refl, refl))
kind_from_name-kind_name date = (refl, (refl, refl))
kind_from_name-kind_name time = (refl, (refl, refl))
kind_from_name-kind_name timestamp = (refl, (refl, refl))
kind_from_name-kind_name timestamp_tz = (refl, (refl, refl))
kind_from_name-kind_name uuid = (refl, (refl, refl))
kind_from_name-kind_name json = (refl, (refl, refl))
kind_from_name-kind_name jsonb = (refl, (refl, refl))
kind_from_name-kind_name bytea = (refl, (refl, refl))
