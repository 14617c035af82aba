-- ===== src/Domain/Attribute.antt =====
-- src/module/schema/core/domain/attribute.rs
use schema_forge_backend.Base.{Bool, true, false, not, Option, none, some, [], is_empty, is_some}
use schema_forge_backend.Text.{Text}
use schema_forge_backend.Text.Trim.{trim}
use schema_forge_backend.Domain.DataType.{DataType}

pub record ForeignKeyRef : Type 0 where
  pub entity_id : Text
  pub attribute_id : Text

pub record Attribute : Type 0 where
  pub id : Text
  pub name : Text
  pub description : Text
  pub data_type : DataType
  pub nullable : Bool
  pub primary_key : Bool
  pub unique : Bool
  pub foreign_key : Option ForeignKeyRef
  pub default_value : Option Text

-- `Attribute::new`
unfoldable pub new : Text → Text → DataType → Attribute
new i n t = record {
  id = i;
  name = n;
  description = [];
  data_type = t;
  nullable = true;
  primary_key = false;
  unique = false;
  foreign_key = none;
  default_value = none;
}

unfoldable pub as_primary_key : Attribute → Attribute
as_primary_key a = record a { primary_key = true; nullable = false }

unfoldable pub required : Attribute → Attribute
required a = record a { nullable = false }

unfoldable pub as_unique : Attribute → Attribute
as_unique a = record a { unique = true }

unfoldable pub referencing : ForeignKeyRef → Attribute → Attribute
referencing reference a = record a { foreign_key = some reference }

unfoldable pub with_description : Text → Attribute → Attribute
with_description d a = record a { description = d }

unfoldable pub with_default : Text → Attribute → Attribute
with_default d a = record a { default_value = some d }

unfoldable pub is_foreign_key : Attribute → Bool
is_foreign_key a = is_some a.foreign_key

unfoldable pub is_documented : Attribute → Bool
is_documented a = not (is_empty (trim a.description))
