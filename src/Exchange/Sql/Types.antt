-- ===== src/Exchange/Sql/Types.antt =====
-- src/module/schema/core/service/exchange/sql/types.rs: the spellings of a type in a script. The arms
-- of `kind_of` are the lists of `spellings`, which have no name in common.
use schema_forge_backend.Base.{Bool, ◌==◌, nat_eq, list_eq, List, [], ◌∷◌, Option, any, find}
use schema_forge_backend.Text.{Text, lit}
use schema_forge_backend.Domain.DataType.{
  DataTypeKind, text, varchar, char, small_int, integer, big_int, numeric, real, double_precision,
  boolean, date, time, timestamp, timestamp_tz, uuid, json, jsonb, bytea, variants,
}

unfoldable pub spellings : DataTypeKind → List Text
unfolding lit
spellings text = lit "text" ∷ []
spellings varchar = lit "varchar" ∷ lit "character varying" ∷ []
spellings char = lit "char" ∷ lit "character" ∷ lit "bpchar" ∷ []
spellings small_int = lit "smallint" ∷ lit "int2" ∷ lit "smallserial" ∷ lit "serial2" ∷ []
spellings integer = lit "int" ∷ lit "integer" ∷ lit "int4" ∷ lit "serial" ∷ lit "serial4" ∷ []
spellings big_int = lit "bigint" ∷ lit "int8" ∷ lit "bigserial" ∷ lit "serial8" ∷ []
spellings numeric = lit "numeric" ∷ lit "decimal" ∷ []
spellings real = lit "real" ∷ lit "float4" ∷ []
spellings double_precision = lit "double precision" ∷ lit "float8" ∷ lit "float" ∷ []
spellings boolean = lit "boolean" ∷ lit "bool" ∷ []
spellings date = lit "date" ∷ []
spellings time = lit "time" ∷ lit "time without time zone" ∷ []
spellings timestamp = lit "timestamp" ∷ lit "timestamp without time zone" ∷ []
spellings timestamp_tz = lit "timestamptz" ∷ lit "timestamp with time zone" ∷ []
spellings uuid = lit "uuid" ∷ []
spellings json = lit "json" ∷ []
spellings jsonb = lit "jsonb" ∷ []
spellings bytea = lit "bytea" ∷ []

unfoldable pub kind_of : Text → Option DataTypeKind
unfolding spellings
kind_of name = find (λ kind. any (λ spelling. spelling == name) (spellings kind)) variants

unfoldable pub serial_names : List Text
unfolding lit
serial_names =
    lit "smallserial"
    ∷ lit "serial2"
    ∷ lit "serial"
    ∷ lit "serial4"
    ∷ lit "bigserial"
    ∷ lit "serial8"
    ∷ []

unfoldable pub is_serial : Text → Bool
unfolding serial_names
is_serial name = any (λ serial. serial == name) serial_names
