-- ===== src/Domain/DataType.antt =====
-- src/module/schema/core/domain/data_type.rs
pub mod Laws
use schema_forge_backend.Base.{
  ℕ, Bool, true, false, ◌==◌, nat_eq, ==_refl, ◌≡◌, refl, ◌&&◌, arith, List, [], ◌∷◌, ◌++◌, Option,
  none, some, find, list_eq,
}
use schema_forge_backend.Text.{Text, lit}
use schema_forge_backend.Text.Trim.{trim}
use schema_forge_backend.Text.Case.{to_ascii_lowercase}
use schema_forge_backend.Text.Decimal.{decimal}

pub data DataTypeKind : Type 0 where
  text varchar char small_int integer big_int numeric real double_precision : DataTypeKind
  boolean date time timestamp timestamp_tz uuid json jsonb bytea : DataTypeKind

pub data TypeFamily : Type 0 where
  textual integral decimals booleans temporal uuids document binary : TypeFamily

unfoldable pub as_str : DataTypeKind → Text
unfolding lit
as_str text = lit "text"
as_str varchar = lit "varchar"
as_str char = lit "char"
as_str small_int = lit "smallint"
as_str integer = lit "integer"
as_str big_int = lit "bigint"
as_str numeric = lit "numeric"
as_str real = lit "real"
as_str double_precision = lit "double precision"
as_str boolean = lit "boolean"
as_str date = lit "date"
as_str time = lit "time"
as_str timestamp = lit "timestamp"
as_str timestamp_tz = lit "timestamptz"
as_str uuid = lit "uuid"
as_str json = lit "json"
as_str jsonb = lit "jsonb"
as_str bytea = lit "bytea"

abbrev pub variants : List DataTypeKind
variants =
    text ∷ varchar ∷ char ∷ small_int ∷ integer ∷ big_int ∷ numeric ∷ real ∷ double_precision
    ∷ boolean ∷ date ∷ time ∷ timestamp ∷ timestamp_tz ∷ uuid ∷ json ∷ jsonb ∷ bytea ∷ []

unfoldable pub takes_length : DataTypeKind → Bool
takes_length varchar = true
takes_length char = true
takes_length _ = false

unfoldable pub takes_precision : DataTypeKind → Bool
takes_precision numeric = true
takes_precision _ = false

unfoldable pub family : DataTypeKind → TypeFamily
family text = textual
family varchar = textual
family char = textual
family small_int = integral
family integer = integral
family big_int = integral
family numeric = decimals
family real = decimals
family double_precision = decimals
family boolean = booleans
family date = temporal
family time = temporal
family timestamp = temporal
family timestamp_tz = temporal
family uuid = uuids
family json = document
family jsonb = document
family bytea = binary

-- `FromStr`: `none` is its `Err`.
unfoldable pub from_str : Text → Option DataTypeKind
unfolding as_str
from_str value =
    let name = to_ascii_lowercase (trim value) in find (λ kind. as_str kind == name) variants

-- The derived `PartialEq` of `TypeFamily` compares the position of the variant.
unfoldable pub discriminant : TypeFamily → ℕ
discriminant textual = 0
discriminant integral = 1
discriminant decimals = 2
discriminant booleans = 3
discriminant temporal = 4
discriminant uuids = 5
discriminant document = 6
discriminant binary = 7

pub record DataType : Type 0 where
  pub kind : DataTypeKind
  pub length : Option ℕ
  pub precision : Option ℕ
  pub scale : Option ℕ

unfoldable pub simple : DataTypeKind → DataType
simple k = record { kind = k; length = none; precision = none; scale = none }

unfoldable pub varchar_of : ℕ → DataType
varchar_of n = record { kind = varchar; length = some n; precision = none; scale = none }

unfoldable pub numeric_of : ℕ → ℕ → DataType
numeric_of p s = record { kind = numeric; length = none; precision = some p; scale = some s }

unfoldable pub is_compatible_with : DataType → DataType → Bool
unfolding family discriminant
is_compatible_with a b = discriminant (family a.kind) == discriminant (family b.kind)

display_length : Text → Option ℕ → Text
display_length name (some n) = name ++ (b'(' ∷ decimal n ++ b')' ∷ [])
display_length name none = name

display_precision : Text → Option ℕ → Option ℕ → Text
unfolding lit
display_precision name (some p) (some s) =
    name ++ (b'(' ∷ decimal p ++ (lit ", " ++ (decimal s ++ b')' ∷ [])))
display_precision name (some p) none = name ++ (b'(' ∷ decimal p ++ b')' ∷ [])
display_precision name none _ = name

display_by : Bool → Bool → DataType → Text
unfolding display_length display_precision as_str
display_by true _ t = display_length (as_str t.kind) t.length
display_by false true t = display_precision (as_str t.kind) t.precision t.scale
display_by false false t = as_str t.kind

-- `Display` of `DataType`.
unfoldable pub display : DataType → Text
unfolding display_by takes_length takes_precision
display t = display_by (takes_length t.kind) (takes_precision t.kind) t

-- The derived `PartialEq` of `DataTypeKind` compares the variants, here by their order.
unfoldable pub kind_discriminant : DataTypeKind → ℕ
kind_discriminant text = 0
kind_discriminant varchar = 1
kind_discriminant char = 2
kind_discriminant small_int = 3
kind_discriminant integer = 4
kind_discriminant big_int = 5
kind_discriminant numeric = 6
kind_discriminant real = 7
kind_discriminant double_precision = 8
kind_discriminant boolean = 9
kind_discriminant date = 10
kind_discriminant time = 11
kind_discriminant timestamp = 12
kind_discriminant timestamp_tz = 13
kind_discriminant uuid = 14
kind_discriminant json = 15
kind_discriminant jsonb = 16
kind_discriminant bytea = 17

abbrev same_number : Option ℕ → Option ℕ → Bool
same_number none none = true
same_number (some a) (some b) = a == b
same_number _ _ = false

-- The derived `PartialEq` of `DataType`.
unfoldable pub same_data_type : DataType → DataType → Bool
unfolding kind_discriminant
same_data_type a b =
    kind_discriminant a.kind == kind_discriminant b.kind
    && same_number a.length b.length
    && same_number a.precision b.precision
    && same_number a.scale b.scale

same_number_refl : (a : Option ℕ) → same_number a a ≡ true
same_number_refl none = refl
same_number_refl (some a) = ==_refl a

pub same_data_type_refl : (a : DataType) → same_data_type a a ≡ true
unfolding same_data_type
same_data_type_refl a = ground (
  arith,
  ==_refl (kind_discriminant a.kind),
  same_number_refl a.length,
  same_number_refl a.precision,
  same_number_refl a.scale,
)
