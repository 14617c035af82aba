-- ===== src/Verifier/WellFormed.antt =====
-- What it takes for a drawn schema to become tables: an account of each defect class on the schema
-- itself, with no reference to reports.
pub mod Elements
pub mod Described
use schema_forge_backend.Base.{
  ℕ, Bool, true, false, not, ◌&&◌, ◌||◌, ◌≡◌, ◌≢◌, ◌↔◌, ◌⊎◌, inl, inr, refl, sym, ap, List, [], ◌∷◌,
  map, any, All, any-false_iff, Option, none, some, is_some, is_empty, length, ◌==◌, ==_iff,
  list_eq, nat_eq, arith, Memᴰ, Bool-cases, if◌then◌else◌,
}
use schema_forge_backend.Text.{Text}
use schema_forge_backend.Text.Trim.{trim}
use schema_forge_backend.Text.Case.{Unicode}
use schema_forge_backend.Domain.DataType.{DataType, family, is_compatible_with}
use schema_forge_backend.Domain.DataType.Laws.{is_compatible_with_iff}
use schema_forge_backend.Domain.Attribute.{Attribute, ForeignKeyRef}
use schema_forge_backend.Domain.Entity.{Entity, primary_key, has_primary_key}
use schema_forge_backend.Domain.Relationship.{
  Relationship, Cardinality, many_to_many, requires_join_table,
}
use schema_forge_backend.Domain.Schema.{Schema, resolve}
use schema_forge_backend.Domain.Diagnostic.Laws.{severe}
use schema_forge_backend.Verifier.Names.{is_unique_key}
use schema_forge_backend.Verifier.Syntax.{parameter_problem, ends_resolve}
use schema_forge_backend.Verifier.Syntax.Laws.{
  is_blank, has_unnamed, has_bad_parameter, ParametersFit, parameter_problem_iff,
}
use schema_forge_backend.Verifier.Structure.{folded}
use schema_forge_backend.Verifier.Structure.Groups.{repeated}
use schema_forge_backend.Verifier.References.{points_at}
use schema_forge_backend.Verifier.References.Keys.{target_hit, reference_hit}
use schema_forge_backend.Verifier.References.Links.{ends_hit, link_hit, PointsAt, points_at_iff}
use schema_forge_backend.Verifier.Cycles.{overlaps, linked, blocked}

-- Every table and every column has a name that is not blank.
abbrev pub IsNamed : Entity → Type 0
IsNamed e = (trim e.name ≢ []) × All (λ a. trim a.name ≢ []) e.attributes

-- No key but the empty one occurs twice.
abbrev pub Unrepeated : List Text → Type 0
Unrepeated [] = Unit
Unrepeated (k ∷ ks) = (k ≢ [] → All (λ j. j ≢ k) ks) × Unrepeated ks

-- One column that no two rows can share.
abbrev pub IsKey : Entity → Attribute → Type 0
IsKey e a = (a.unique ≡ true) ⊎ ((a.primary_key ≡ true) × (length (primary_key e) ≡ 1))

abbrev pub EndsExist : Schema → Relationship → Type 0
EndsExist s link =
    (resolve s link.from_entity_id link.from_attribute_id ≢ none)
    × (resolve s link.to_entity_id link.to_attribute_id ≢ none)

-- A foreign key resolves to a key of the same family of types.
abbrev pub RefersToKey : Schema → Attribute → ForeignKeyRef → Type 0
RefersToKey s a reference =
    (found : Entity × Attribute) × (resolve s reference.entity_id reference.attribute_id
      ≡ some found)
    × IsKey found.0 found.1
    × (family a.data_type.kind ≡ family found.1.data_type.kind)

abbrev pub ReferenceFits : Schema → Attribute → Option ForeignKeyRef → Type 0
ReferenceFits s a none = Unit
ReferenceFits s a (some reference) = RefersToKey s a reference

-- Unless it is many-to-many, a relationship between two columns that exist is held by one of them.
abbrev pub IsHeld : Schema → Relationship → Type 0
IsHeld s link =
    link.cardinality ≢ many_to_many
    → (from to : Entity × Attribute)
    → resolve s link.from_entity_id link.from_attribute_id ≡ some from
    → resolve s link.to_entity_id link.to_attribute_id ≡ some to
    → PointsAt from.1 to.0 to.1 ⊎ PointsAt to.1 from.0 from.1

-- The table and each of its columns has a description that is not blank.
abbrev pub IsDescribed : Entity → Type 0
IsDescribed e = (trim e.description ≢ []) × All (λ a. trim a.description ≢ []) e.attributes

-- Each table has a column flagged as part of its primary key.
abbrev pub HasPrimaryKey : Entity → Type 0
HasPrimaryKey e = (a : Attribute) × Memᴰ a e.attributes × (a.primary_key ≡ true)

pub record WellFormed (unicode : Unicode) (s : Schema) : Type 0 where
  pub named : All IsNamed s.entities
  pub parameters : All (λ e. All (λ a. ParametersFit a.data_type) e.attributes) s.entities
  pub ends : All (EndsExist s) s.relationships
  pub tables : Unrepeated (map (λ e. folded unicode e.name) s.entities)
  pub columns : All (λ e. Unrepeated (map (λ a. folded unicode a.name) e.attributes)) s.entities
  pub keyed : All HasPrimaryKey s.entities
  pub references : All (λ e. All (λ a. ReferenceFits s a a.foreign_key) e.attributes) s.entities
  pub held : All (IsHeld s) s.relationships
  pub insertable : All (λ component. overlaps (blocked s) component ≡ false) (linked s)
