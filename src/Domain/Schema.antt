-- ===== src/Domain/Schema.antt =====
-- src/module/schema/core/domain/schema.rs
use schema_forge_backend.Base.{
  ℕ, ◌%◌, ◌^◌, Bool, ◌==◌, nat_eq, list_eq, List, Option, none, some, find, filter, length,
  is_empty,
}
use schema_forge_backend.Text.{Text}
use schema_forge_backend.Text.Case.{eq_ignore_ascii_case}
use schema_forge_backend.Domain.Attribute.{Attribute}
use schema_forge_backend.Domain.Entity.{Entity, attribute}
use schema_forge_backend.Domain.Relationship.{Relationship, touches}

pub record Schema : Type 0 where
  pub id : Text
  pub name : Text
  pub description : Text
  pub entities : List Entity
  pub relationships : List Relationship
  pub created_at : ℕ
  pub updated_at : ℕ

pub record SchemaDraft : Type 0 where
  pub name : Text
  pub description : Text
  pub entities : List Entity
  pub relationships : List Relationship

pub record SchemaSummary : Type 0 where
  pub id : Text
  pub name : Text
  pub description : Text
  pub entity_count : ℕ
  pub relationship_count : ℕ
  pub created_at : ℕ
  pub updated_at : ℕ

-- `Schema::new`
unfoldable pub new : Text → SchemaDraft → ℕ → Schema
new i d now = record {
  id = i;
  name = d.name;
  description = d.description;
  entities = d.entities;
  relationships = d.relationships;
  created_at = now;
  updated_at = now;
}

unfoldable pub replace_with : Schema → SchemaDraft → ℕ → Schema
replace_with s d now = record s {
  name = d.name;
  description = d.description;
  entities = d.entities;
  relationships = d.relationships;
  updated_at = now;
}

unfoldable pub draft : Schema → SchemaDraft
draft s = record {
  name = s.name;
  description = s.description;
  entities = s.entities;
  relationships = s.relationships;
}

unfoldable pub entity : Schema → Text → Option Entity
entity s entity_id = find (λ e. e.id == entity_id) s.entities

unfoldable pub entity_by_name : Schema → Text → Option Entity
entity_by_name s name = find (λ e. eq_ignore_ascii_case e.name name) s.entities

unfoldable pub relationship : Schema → Text → Option Relationship
relationship s relationship_id = find (λ r. r.id == relationship_id) s.relationships

infixl 5 ◌>>=◌
abbrev ◌>>=◌ : {A B : Type 0} → Option A → (A → Option B) → Option B
none >>= k = none
some a >>= k = k a

unfoldable pub resolve : Schema → Text → Text → Option (Entity × Attribute)
unfolding entity attribute
resolve s entity_id attribute_id = do
  owner ← entity s entity_id
  found ← attribute owner attribute_id
  some (owner, found)

unfoldable pub relationships_for : Schema → Text → List Relationship
unfolding touches
relationships_for s entity_id = filter (λ r. touches r entity_id) s.relationships

-- `as u32` keeps the low 32 bits.
unfoldable pub summary : Schema → SchemaSummary
summary s = record {
  id = s.id;
  name = s.name;
  description = s.description;
  entity_count = length s.entities % 2 ^ 32;
  relationship_count = length s.relationships % 2 ^ 32;
  created_at = s.created_at;
  updated_at = s.updated_at;
}

unfoldable pub has_no_entities : Schema → Bool
has_no_entities s = is_empty s.entities
