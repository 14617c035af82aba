-- ===== src/SchemaService/Postgres/Stored.antt =====
-- src/module/schema/adapter/repository/postgres.rs: the stored shape of a drawing, what it is made
-- from and how it is read back. A coordinate is the bits of an `f64`.
use schema_forge_backend.Base.{
  ℕ, Bool, List, [], ◌∷◌, ◌++◌, map, Option, none, some, Result, ok, err, ok_or,
}
use schema_forge_backend.Text.{Text, lit, ticked}
use schema_forge_backend.Domain.DataType.{DataType, as_str as kind_text, from_str as parse_kind}
use schema_forge_backend.Domain.Attribute.{Attribute, ForeignKeyRef}
use schema_forge_backend.Domain.Entity.{Entity, Position}
use schema_forge_backend.Domain.Relationship.{
  Relationship, as_str as cardinality_text, from_str as parse_cardinality,
}
use schema_forge_backend.Domain.Schema.{SchemaDraft}
use schema_forge_backend.SchemaService.Ports.{DomainError, storage}

pub record StoredPosition : Type 0 where
  pub x : ℕ
  pub y : ℕ

pub record StoredDataType : Type 0 where
  pub kind : Text
  pub length : Option ℕ
  pub precision : Option ℕ
  pub scale : Option ℕ

pub record StoredForeignKey : Type 0 where
  pub entity_id : Text
  pub attribute_id : Text

pub record StoredAttribute : Type 0 where
  pub id : Text
  pub name : Text
  pub description : Text
  pub data_type : StoredDataType
  pub nullable : Bool
  pub primary_key : Bool
  pub unique : Bool
  pub foreign_key : Option StoredForeignKey
  pub default_value : Option Text

pub record StoredEntity : Type 0 where
  pub id : Text
  pub name : Text
  pub description : Text
  pub attributes : List StoredAttribute
  pub position : StoredPosition

pub record StoredRelationship : Type 0 where
  pub id : Text
  pub name : Text
  pub description : Text
  pub from_entity_id : Text
  pub from_attribute_id : Text
  pub to_entity_id : Text
  pub to_attribute_id : Text
  pub cardinality : Text

-- The `From` of each.
abbrev pub stored_position : Position → StoredPosition
stored_position p = record { x = p.x; y = p.y }

unfoldable pub stored_data_type : DataType → StoredDataType
unfolding kind_text
stored_data_type t = record {
  kind = kind_text t.kind;
  length = t.length;
  precision = t.precision;
  scale = t.scale;
}

abbrev pub stored_foreign_key : Option ForeignKeyRef → Option StoredForeignKey
stored_foreign_key none = none
stored_foreign_key (some r) =
    some (record { entity_id = r.entity_id; attribute_id = r.attribute_id })

unfoldable pub stored_attribute : Attribute → StoredAttribute
unfolding stored_data_type
stored_attribute a = record {
  id = a.id;
  name = a.name;
  description = a.description;
  data_type = stored_data_type a.data_type;
  nullable = a.nullable;
  primary_key = a.primary_key;
  unique = a.unique;
  foreign_key = stored_foreign_key a.foreign_key;
  default_value = a.default_value;
}

unfoldable pub stored_entity : Entity → StoredEntity
unfolding stored_attribute
stored_entity e = record {
  id = e.id;
  name = e.name;
  description = e.description;
  attributes = map stored_attribute e.attributes;
  position = stored_position e.position;
}

unfoldable pub stored_relationship : Relationship → StoredRelationship
unfolding cardinality_text
stored_relationship r = record {
  id = r.id;
  name = r.name;
  description = r.description;
  from_entity_id = r.from_entity_id;
  from_attribute_id = r.from_attribute_id;
  to_entity_id = r.to_entity_id;
  to_attribute_id = r.to_attribute_id;
  cardinality = cardinality_text r.cardinality;
}

unfoldable pub drawing : SchemaDraft → List StoredEntity × List StoredRelationship
unfolding stored_entity stored_relationship
drawing d = (map stored_entity d.entities, map stored_relationship d.relationships)

-- `?` on a `Result`, and `collect` into one.
abbrev pub and_then : {A B E : Type 0} → Result A E → (A → Result B E) → Result B E
and_then (ok a) f = f a
and_then (err e) f = err e

unfoldable pub collect : {A B E : Type 0} → (A → Result B E) → List A → Result (List B) E
collect f [] = ok []
collect f (x ∷ xs) = and_then (f x) (λ y. and_then (collect f xs) (λ ys. ok (y ∷ ys)))

-- The `TryFrom` of each.
unfoldable pub restored_data_type : StoredDataType → Result DataType DomainError
unfolding parse_kind lit ticked
restored_data_type t =
    and_then
      (ok_or (storage (ticked t.kind ++ lit " is not a known data type")) (parse_kind t.kind))
      (λ kind.
        ok (record { kind = kind; length = t.length; precision = t.precision; scale = t.scale }))

abbrev pub restored_foreign_key : Option StoredForeignKey → Option ForeignKeyRef
restored_foreign_key none = none
restored_foreign_key (some r) =
    some (record { entity_id = r.entity_id; attribute_id = r.attribute_id })

unfoldable pub restored_attribute : StoredAttribute → Result Attribute DomainError
unfolding restored_data_type
restored_attribute a = and_then (restored_data_type a.data_type) (λ data_type. ok (record {
  id = a.id;
  name = a.name;
  description = a.description;
  data_type = data_type;
  nullable = a.nullable;
  primary_key = a.primary_key;
  unique = a.unique;
  foreign_key = restored_foreign_key a.foreign_key;
  default_value = a.default_value;
}))

unfoldable pub restored_entity : StoredEntity → Result Entity DomainError
unfolding restored_attribute collect
restored_entity e = and_then (collect restored_attribute e.attributes) (λ attributes. ok (record {
  id = e.id;
  name = e.name;
  description = e.description;
  attributes = attributes;
  position = record { x = e.position.x; y = e.position.y };
}))

unfoldable pub restored_relationship : StoredRelationship → Result Relationship DomainError
unfolding parse_cardinality lit ticked
restored_relationship r =
    and_then
      (ok_or (storage (ticked r.cardinality ++ lit " is not a known cardinality"))
        (parse_cardinality r.cardinality))
      (λ cardinality. ok (record {
        id = r.id;
        name = r.name;
        description = r.description;
        from_entity_id = r.from_entity_id;
        from_attribute_id = r.from_attribute_id;
        to_entity_id = r.to_entity_id;
        to_attribute_id = r.to_attribute_id;
        cardinality = cardinality;
      }))
