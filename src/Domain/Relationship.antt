-- ===== src/Domain/Relationship.antt =====
-- src/module/schema/core/domain/relationship.rs
pub mod Laws
use schema_forge_backend.Base.{
  Bool, true, false, not, ◌||◌, ◌==◌, nat_eq, list_eq, [], Option, none, some, is_empty,
  if◌then◌else◌, List, ◌∷◌,
}
use schema_forge_backend.Text.{Text, lit}
use schema_forge_backend.Text.Trim.{trim}
use schema_forge_backend.Text.Case.{to_ascii_uppercase}

pub data Cardinality : Type 0 where
  one_to_one one_to_many many_to_many : Cardinality

unfoldable pub as_str : Cardinality → Text
unfolding lit
as_str one_to_one = lit "1:1"
as_str one_to_many = lit "1:N"
as_str many_to_many = lit "N:M"

unfoldable pub requires_join_table : Cardinality → Bool
requires_join_table many_to_many = true
requires_join_table _ = false

cardinality_named : Text → Option Cardinality
unfolding lit
cardinality_named v =
    if v == lit "1:1" || v == lit "ONE_TO_ONE"
    then some one_to_one
    else if v == lit "1:N" || v == lit "ONE_TO_MANY"
    then some one_to_many
    else if v == lit "N:M" || v == lit "MANY_TO_MANY"
    then some many_to_many
    else none

-- `FromStr`: `none` is its `Err`.
unfoldable pub from_str : Text → Option Cardinality
unfolding cardinality_named
from_str value = cardinality_named (to_ascii_uppercase (trim value))

unfoldable pub same_cardinality : Cardinality → Cardinality → Bool
same_cardinality one_to_one one_to_one = true
same_cardinality one_to_many one_to_many = true
same_cardinality many_to_many many_to_many = true
same_cardinality _ _ = false

pub record Relationship : Type 0 where
  pub id : Text
  pub name : Text
  pub description : Text
  pub from_entity_id : Text
  pub from_attribute_id : Text
  pub to_entity_id : Text
  pub to_attribute_id : Text
  pub cardinality : Cardinality

-- `Relationship::new`
unfoldable pub new : Text → (from to : Text × Text) → Cardinality → Relationship
new i from to c = record {
  id = i;
  name = [];
  description = [];
  from_entity_id = from.0;
  from_attribute_id = from.1;
  to_entity_id = to.0;
  to_attribute_id = to.1;
  cardinality = c;
}

unfoldable pub with_name : Text → Relationship → Relationship
with_name n r = record r { name = n }

unfoldable pub with_description : Text → Relationship → Relationship
with_description d r = record r { description = d }

unfoldable pub is_self_referencing : Relationship → Bool
is_self_referencing r = r.from_entity_id == r.to_entity_id

unfoldable pub touches : Relationship → Text → Bool
touches r entity_id = r.from_entity_id == entity_id || r.to_entity_id == entity_id

unfoldable pub is_documented : Relationship → Bool
is_documented r = not (is_empty (trim r.description))
