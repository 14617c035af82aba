-- ===== src/SchemaService/Postgres/RoundTrip.antt =====
-- That a drawing which was stored is read back as it was.
use schema_forge_backend.Base.{List, [], ◌∷◌, map, Option, none, some, Result, ok, ◌≡◌, refl}
use schema_forge_backend.Domain.DataType.{DataType}
use schema_forge_backend.Domain.DataType.Laws.{from_str-as_str}
use schema_forge_backend.Domain.Attribute.{Attribute, ForeignKeyRef}
use schema_forge_backend.Domain.Entity.{Entity}
use schema_forge_backend.Domain.Relationship.{Relationship}
use schema_forge_backend.Domain.Relationship.Laws.{from_str-as_str as cardinality_read}
use schema_forge_backend.Domain.Schema.{SchemaDraft}
use schema_forge_backend.SchemaService.Postgres.Stored.{
  stored_data_type, stored_foreign_key, stored_attribute, stored_entity, stored_relationship,
  drawing, collect, restored_data_type, restored_foreign_key, restored_attribute, restored_entity,
  restored_relationship,
}

collect-map :
    {A B E : Type 0} (f : A → B) (g : B → Result A E)
    → ((x : A) → g (f x) ≡ ok x)
    → (xs : List A) → collect g (map f xs) ≡ ok xs
unfolding collect
collect-map f g back [] = refl
collect-map f g back (x ∷ xs) = rw (back x, collect-map f g back xs)

foreign_key_back : (r : Option ForeignKeyRef) → restored_foreign_key (stored_foreign_key r) ≡ r
foreign_key_back none = refl
foreign_key_back (some r) = refl

data_type_back : (t : DataType) → restored_data_type (stored_data_type t) ≡ ok t
unfolding restored_data_type stored_data_type
data_type_back t = rw (from_str-as_str t.kind)

attribute_back : (a : Attribute) → restored_attribute (stored_attribute a) ≡ ok a
unfolding restored_attribute stored_attribute
attribute_back a = rw (data_type_back a.data_type, foreign_key_back a.foreign_key)

entity_back : (e : Entity) → restored_entity (stored_entity e) ≡ ok e
unfolding restored_entity stored_entity
entity_back e = rw (collect-map stored_attribute restored_attribute attribute_back e.attributes)

relationship_back : (r : Relationship) → restored_relationship (stored_relationship r) ≡ ok r
unfolding restored_relationship stored_relationship
relationship_back r = rw (cardinality_read r.cardinality)

-- The stored shape of a drawing is read back as the tables and the relationships of the drawing: no
-- column, type, parameter, key, reference or cardinality is lost.
pub drawing-restored :
    (d : SchemaDraft)
    → (collect restored_entity (drawing d).0 ≡ ok d.entities)
      × (collect restored_relationship (drawing d).1 ≡ ok d.relationships)
unfolding drawing
drawing-restored d = (
  collect-map stored_entity restored_entity entity_back d.entities,
  collect-map stored_relationship restored_relationship relationship_back d.relationships,
)
