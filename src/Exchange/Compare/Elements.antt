-- ===== src/Exchange/Compare/Elements.antt =====
-- `entity` and what it calls in src/module/schema/core/service/exchange/compare.rs: one table against
-- another. The comparison is passed from step to step. How Rust prints an `f64` is the parameter
-- `show_f64`.

use schema_forge_backend.Base.{
  ℕ, Bool, true, false, not, ◌||◌, ◌==◌, nat_eq, list_eq, if◌then◌else◌, List, [], ◌∷◌, ◌++◌,
  Option, none, some, for_each, set, is_empty,
}
use schema_forge_backend.Text.{Text, lit}
use schema_forge_backend.Text.Trim.{trim}
use schema_forge_backend.Text.Case.{eq_ignore_ascii_case}
use schema_forge_backend.Domain.DataType.{same_data_type, display}
use schema_forge_backend.Domain.Attribute.{Attribute}
use schema_forge_backend.Domain.Entity.{Entity, Position, same_position}
use schema_forge_backend.Domain.Comparison.{
  Category, Difference, Comparison, missing_at, extra_at, changed_at, counts_mut, match_one,
  change_one, extend, record_one,
}
use schema_forge_backend.Domain.Comparison.Category.{columns, keys, descriptions, positions}
use schema_forge_backend.Exchange.Compare.Matching.{find_free, free_from, none_taken}

unfoldable pub same : Text → Text → Bool
unfolding eq_ignore_ascii_case
same left right = eq_ignore_ascii_case left right

unfoldable pub table_path : Text → Text
unfolding lit
table_path name = lit "entities[" ++ (name ++ lit "]")

unfoldable pub column_path : Text → Text → Text
unfolding lit
column_path table name = table ++ (lit ".attributes[" ++ (name ++ lit "]"))

abbrev pub optional : Option Text → Text
optional none = []
optional (some value) = value

-- `bool::to_string`
abbrev spell_bool : Bool → Text
unfolding lit
spell_bool true = lit "true"
spell_bool false = lit "false"

abbrev pub same_bool : Bool → Bool → Bool
same_bool true b = b
same_bool false b = not b

-- `field`: the values by whether they are equal, and as they are printed.
unfoldable pub field : Text → Text → (equal : Bool) → Text → Text → List Difference
unfolding changed_at
field path name equal expected actual =
    if equal then [] else changed_at (path ++ b'.' ∷ name) expected actual ∷ []

-- `settle`, on the differences that are there.
unfoldable pub settle : Category → List Difference → Comparison → Comparison
unfolding counts_mut match_one change_one extend
settle category [] c = counts_mut category match_one c
settle category (d ∷ found) c = extend (d ∷ found) (counts_mut category change_one c)

unfoldable pub describe : Text → Text → Text → Comparison → Comparison
unfolding record_one counts_mut match_one missing_at extra_at changed_at
describe path expected actual c =
    if is_empty expected
    then if is_empty actual then c else record_one descriptions (extra_at path actual) c
    else if is_empty actual
    then record_one descriptions (missing_at path expected) c
    else if expected == actual
    then counts_mut descriptions match_one c
    else record_one descriptions (changed_at path expected actual) c

unfoldable pub description : Text → Text → Text → Comparison → Comparison
unfolding describe lit
description path expected actual c =
    describe (path ++ lit ".description") (trim expected) (trim actual) c

abbrev pub flagged : Attribute → Bool
flagged a = a.primary_key || a.unique

unfoldable pub spell_key : (primary_key unique : Bool) → Text
unfolding lit
spell_key true true = lit "primary key, unique"
spell_key true false = lit "primary key"
spell_key false true = lit "unique"
spell_key false false = []

unfoldable pub key_fields : Text → Attribute → Attribute → List Difference
unfolding field lit
key_fields path expected actual =
    field path (lit "primaryKey") (same_bool expected.primary_key actual.primary_key)
      (spell_bool expected.primary_key) (spell_bool actual.primary_key)
    ++ field path (lit "unique") (same_bool expected.unique actual.unique)
        (spell_bool expected.unique) (spell_bool actual.unique)

unfoldable pub compare_keys : Text → Attribute → Attribute → Comparison → Comparison
unfolding record_one settle key_fields spell_key missing_at extra_at
compare_keys path expected actual c =
    if flagged expected
    then if flagged actual
      then settle keys (key_fields path expected actual) c
      else record_one keys (missing_at path (spell_key expected.primary_key expected.unique)) c
    else if flagged actual
    then record_one keys (extra_at path (spell_key actual.primary_key actual.unique)) c
    else c

unfoldable pub column_fields : Text → Attribute → Attribute → List Difference
unfolding field lit same_data_type display
column_fields path expected actual =
    field path (lit "dataType") (same_data_type expected.data_type actual.data_type)
      (display expected.data_type) (display actual.data_type)
    ++ (field path (lit "nullable") (same_bool expected.nullable actual.nullable)
          (spell_bool expected.nullable) (spell_bool actual.nullable)
        ++ field path (lit "default")
            (optional expected.default_value == optional actual.default_value)
            (optional expected.default_value) (optional actual.default_value))

unfoldable pub compare_attribute : Text → Attribute → Attribute → Comparison → Comparison
unfolding settle column_fields compare_keys description column_path
compare_attribute table expected actual c =
    let path = column_path table expected.name in
    description path expected.description actual.description
      (compare_keys path expected actual (settle columns (column_fields path expected actual) c))

-- One list matched against another: the flags of what is taken, and the comparison so far.
pub record Matched : Type 0 where
  pub taken : List Bool
  pub comparison : Comparison

unfoldable pub match_attribute : Text → Attribute → Option (ℕ × Attribute) → Matched → Matched
unfolding compare_attribute record_one missing_at column_path
match_attribute path left none m = record m {
  comparison = record_one columns (missing_at (column_path path left.name) left.name) m.comparison;
}
match_attribute path left (some (at, right)) m = record {
  taken = set m.taken at true;
  comparison = compare_attribute path left right m.comparison;
}

unfoldable pub take_attribute : Text → List Attribute → Attribute → Matched → Matched
unfolding find_free match_attribute same
take_attribute path actual left m =
    match_attribute path left (find_free (λ right. same right.name left.name) m.taken actual) m

unfoldable pub match_attributes : Text → List Attribute → List Attribute → Comparison → Matched
unfolding take_attribute
match_attributes path expected actual c =
    for_each expected (take_attribute path actual)
      (record { taken = none_taken actual; comparison = c })

unfoldable pub extra_column : Text → ℕ × Attribute → Comparison → Comparison
unfolding record_one extra_at column_path
extra_column path (_, right) c =
    record_one columns (extra_at (column_path path right.name) right.name) c

unfoldable pub attributes : Text → List Attribute → List Attribute → Comparison → Comparison
unfolding match_attributes free_from extra_column
attributes path expected actual c =
    let m = match_attributes path expected actual c in
    for_each (free_from 0 m.taken actual) (extra_column path) m.comparison

module _ (show_f64 : ℕ → Text) where
  spell_position : Position → Text
  unfolding lit
  spell_position p = show_f64 p.x ++ (lit ", " ++ show_f64 p.y)

  unfoldable pub position : Text → Entity → Entity → Comparison → Comparison
  unfolding counts_mut match_one record_one changed_at spell_position lit same_position
  position path expected actual c =
      if same_position expected.position actual.position
      then counts_mut positions match_one c
      else record_one positions
          (changed_at (path ++ lit ".position") (spell_position expected.position)
            (spell_position actual.position))
          c

  unfoldable pub compare_entity :
      (include_positions : Bool) → Entity → Entity → Comparison → Comparison
  unfolding description position attributes table_path
  compare_entity include_positions expected actual c =
      let path = table_path expected.name in
      let described = description path expected.description actual.description c in
      attributes path expected.attributes actual.attributes
        (if include_positions then position path expected actual described else described)
