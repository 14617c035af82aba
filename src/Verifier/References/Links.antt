-- ===== src/Verifier/References/Links.antt =====
-- What the relationship check adds to a report.
use schema_forge_backend.Base.{
  Bool, true, false, not, ◌&&◌, ◌≡◌, any, Option, none, some, if◌then◌else◌, arith, ◌↔◌, refl,
  ==_iff, and-true_iff, list_eq, nat_eq,
}
use schema_forge_backend.Text.{Text}
use schema_forge_backend.Domain.Attribute.{Attribute, ForeignKeyRef}
use schema_forge_backend.Domain.Entity.{Entity}
use schema_forge_backend.Domain.Relationship.{
  Relationship, Cardinality, one_to_one, one_to_many, many_to_many, requires_join_table,
}
use schema_forge_backend.Domain.Schema.{Schema, resolve}
use schema_forge_backend.Domain.Diagnostic.{error, warning, an_error, a_warning, about, at, push}
use schema_forge_backend.Domain.Diagnostic.Code
use schema_forge_backend.Domain.Diagnostic.Laws.{
  Flag, Adds, Adds-skip, Adds-push, Adds-if, Adds-unless, Adds-for_each, Adds-either,
}
use schema_forge_backend.Verifier.Names.{is_unique_key}
use schema_forge_backend.Verifier.References.{
  points_at, reference_is, warn_cardinality, check_cardinality, check_link_ends, check_link,
  check_relationships,
}

-- The cardinality does not fit the uniqueness of the column that holds the foreign key.
abbrev pub cardinality_misfit : Cardinality → Entity → Attribute → Bool
cardinality_misfit one_to_one e a = not (is_unique_key e a)
cardinality_misfit one_to_many e a = is_unique_key e a
cardinality_misfit many_to_many e a = false

-- The column is a foreign key to the other one, by their ids.
abbrev pub PointsAt : Attribute → Entity → Attribute → Type 0
PointsAt a e key =
    (reference : ForeignKeyRef) × (a.foreign_key ≡ some reference)
    × (reference.entity_id ≡ e.id)
    × (reference.attribute_id ≡ key.id)

reference_is_iff :
    (reference : Option ForeignKeyRef) (e : Entity) (key : Attribute)
    → (reference_is reference e key ≡ true) ↔ (
        (r : ForeignKeyRef) × (reference ≡ some r)
        × (r.entity_id ≡ e.id)
        × (r.attribute_id ≡ key.id))
unfolding reference_is
reference_is_iff none e key = ((λ h. cc), (λ (r, h, _, _). cc))
reference_is_iff (some r) e key = (
  λ h.
      let (same_entity, same_attribute) = (and-true_iff _ _).0 h in
      (r, refl, (==_iff _ _).0 same_entity, (==_iff _ _).0 same_attribute),
  λ (r', h, same_entity, same_attribute).
      ground (arith, ==_iff r.entity_id e.id, ==_iff r.attribute_id key.id),
)

pub points_at_iff :
    (a : Attribute) (e : Entity) (key : Attribute) → (points_at a e key ≡ true) ↔ PointsAt a e key
unfolding points_at
points_at_iff a e key = reference_is_iff a.foreign_key e key

module _ (p : Flag) where
  abbrev pub ends_hit :
      Cardinality → Option (Entity × Attribute) → Option (Entity × Attribute) → Bool
  ends_hit c (some (from_entity, from)) (some (to_entity, to)) =
      if points_at from to_entity to
      then cardinality_misfit c from_entity from && p Code.cardinality_mismatch warning
      else if points_at to from_entity from
      then cardinality_misfit c to_entity to && p Code.cardinality_mismatch warning
      else p Code.relationship_without_foreign_key error
  ends_hit c (some from) none = false
  ends_hit c none to = false

  abbrev pub link_hit : Schema → Relationship → Bool
  link_hit s link =
      not (requires_join_table link.cardinality)
      && ends_hit link.cardinality (resolve s link.from_entity_id link.from_attribute_id)
          (resolve s link.to_entity_id link.to_attribute_id)

  warn_cardinality-Adds :
      (link : Relationship) (e : Entity) (a : Attribute) (message : Text)
      → Adds p (warn_cardinality link e a message) (p Code.cardinality_mismatch warning)
  unfolding warn_cardinality at about a_warning
  warn_cardinality-Adds link e a message = Adds-push p _

  check_cardinality-Adds :
      (s : Schema) (link : Relationship) (c : Cardinality) (e : Entity) (a : Attribute)
      → Adds p
          (check_cardinality s link c e a)
          (cardinality_misfit c e a && p Code.cardinality_mismatch warning)
  unfolding check_cardinality
  check_cardinality-Adds s link one_to_one e a =
      Adds-unless p (is_unique_key e a) (warn_cardinality link e a _) _
        (warn_cardinality-Adds link e a _)
  check_cardinality-Adds s link one_to_many e a =
      Adds-if p (is_unique_key e a) (warn_cardinality link e a _) _
        (warn_cardinality-Adds link e a _)
  check_cardinality-Adds s link many_to_many e a = Adds-skip p

  check_link_ends-Adds :
      (s : Schema) (link : Relationship) (from to : Option (Entity × Attribute))
      → Adds p (check_link_ends s link from to) (ends_hit link.cardinality from to)
  unfolding check_link_ends at about an_error
  check_link_ends-Adds s link (some (from_entity, from)) (some (to_entity, to)) =
      Adds-either p (points_at from to_entity to)
        (check_cardinality s link link.cardinality from_entity from) _ _ _
        (check_cardinality-Adds s link link.cardinality from_entity from)
        (Adds-either p (points_at to from_entity from)
          (check_cardinality s link link.cardinality to_entity to) (push _) _ _
          (check_cardinality-Adds s link link.cardinality to_entity to) (Adds-push p _))
  check_link_ends-Adds s link (some from) none = Adds-skip p
  check_link_ends-Adds s link none _ = Adds-skip p

  pub check_relationships-Adds :
      (s : Schema) → Adds p (check_relationships s) (any (link_hit s) s.relationships)
  unfolding check_relationships check_link
  check_relationships-Adds s =
      Adds-for_each p (check_link s) (link_hit s)
        (λ link.
          Adds-unless p (requires_join_table link.cardinality)
            (check_link_ends s link (resolve s link.from_entity_id link.from_attribute_id)
              (resolve s link.to_entity_id link.to_attribute_id))
            _ (check_link_ends-Adds s link _ _))
        s.relationships
