-- ===== src/Verifier/WellFormed/Elements.antt =====
-- The checks of single elements against their account: names, parameters, ends, keys, references.
use schema_forge_backend.Base.{
  true, false, not, ◌≡◌, ◌≢◌, ◌↔◌, ◌⊎◌, inl, inr, refl, List, [], ◌∷◌, All, any-true_iff,
  any-false_iff, Option, none, some, is_some, is_empty, ◌==◌, ==_iff, list_eq, nat_eq, arith,
  Bool-cases,
}
use schema_forge_backend.Text.{Text}
use schema_forge_backend.Text.Trim.{trim}
use schema_forge_backend.Domain.DataType.{family}
use schema_forge_backend.Domain.DataType.Laws.{is_compatible_with_iff}
use schema_forge_backend.Domain.Attribute.{Attribute, ForeignKeyRef}
use schema_forge_backend.Domain.Entity.{Entity, has_primary_key}
use schema_forge_backend.Domain.Relationship.{
  Relationship, Cardinality, one_to_one, one_to_many, many_to_many, requires_join_table,
}
use schema_forge_backend.Domain.Schema.{Schema, resolve}
use schema_forge_backend.Domain.Diagnostic.Laws.{severe}
use schema_forge_backend.Verifier.Names.{is_unique_key}
use schema_forge_backend.Verifier.Syntax.{parameter_problem, ends_resolve}
use schema_forge_backend.Verifier.Syntax.Laws.{
  is_blank, has_unnamed, has_bad_parameter, ParametersFit, parameter_problem_iff,
}
use schema_forge_backend.Verifier.Structure.Groups.{repeated}
use schema_forge_backend.Verifier.References.{points_at}
use schema_forge_backend.Verifier.References.Keys.{target_hit, reference_hit}
use schema_forge_backend.Verifier.References.Links.{ends_hit, link_hit, PointsAt, points_at_iff}
use schema_forge_backend.Verifier.WellFormed.{
  IsNamed, Unrepeated, IsKey, EndsExist, ReferenceFits, IsHeld, HasPrimaryKey,
}

pub not_empty_iff : (s : Text) → (is_empty s ≡ false) ↔ (s ≢ [])
not_empty_iff [] = ((λ e. cc), (λ n. absurd (n refl)))
not_empty_iff (c ∷ s) = ((λ e h. cc), (λ n. refl))

blank_iff : (name : Text) → (is_blank name ≡ false) ↔ (trim name ≢ [])
blank_iff name = not_empty_iff (trim name)

differs_iff : (j k : Text) → ((j == k) ≡ false) ↔ (j ≢ k)
differs_iff j k = ground (arith, ==_iff j k)

pub unnamed_iff : (e : Entity) → (has_unnamed e ≡ false) ↔ IsNamed e
unnamed_iff e =
    let names =
      any-false_iff (λ (a : Attribute). is_blank a.name) e.attributes (λ a. blank_iff a.name) in
    ground (arith, blank_iff e.name, names)

pub bad_parameter_iff :
    (e : Entity) → (has_bad_parameter e ≡ false) ↔ All (λ a. ParametersFit a.data_type) e.attributes
bad_parameter_iff e =
    any-false_iff (λ (a : Attribute). is_some (parameter_problem a.data_type)) e.attributes
      (λ a. ground (arith, parameter_problem_iff a.data_type))

some_iff {ℓ} : {A : Type ℓ} (o : Option A) → (is_some o ≡ true) ↔ (o ≢ none)
some_iff none = ((λ e. cc), (λ n. absurd (n refl)))
some_iff (some a) = ((λ _ h. cc), (λ _. refl))

pub ends_iff :
    (s : Schema) (link : Relationship) → (not (ends_resolve s link) ≡ false) ↔ EndsExist s link
unfolding ends_resolve
ends_iff s link = ground (
  arith,
  some_iff (resolve s link.from_entity_id link.from_attribute_id),
  some_iff (resolve s link.to_entity_id link.to_attribute_id),
)

pub repeated_iff : (ks : List Text) → (repeated ks ≡ false) ↔ Unrepeated ks
repeated_iff [] = ((λ _. tt), (λ _. refl))
repeated_iff (k ∷ ks) =
    let others = any-false_iff (λ j. j == k) ks (λ j. differs_iff j k) in
    ground (arith, not_empty_iff k, others, repeated_iff ks)

pub is_unique_key_iff : (e : Entity) (a : Attribute) → (is_unique_key e a ≡ true) ↔ IsKey e a
unfolding is_unique_key
is_unique_key_iff e a = ground arith

pub keyed_iff : (e : Entity) → (not (has_primary_key e) ≡ false) ↔ HasPrimaryKey e
unfolding has_primary_key
keyed_iff e =
    let flagged = any-true_iff (λ (a : Attribute). a.primary_key) e.attributes in
    (λ h. flagged.0 (ground arith), λ k. ground (arith, flagged.1 k))

target_iff :
    (a : Attribute) (found : Option (Entity × Attribute))
    → (target_hit severe a found ≡ false) ↔ (
        (f : Entity × Attribute) × (found ≡ some f)
        × IsKey f.0 f.1
        × (family a.data_type.kind ≡ family f.1.data_type.kind))
target_iff a none = ((λ h. cc), (λ (_, h, _, _). cc))
target_iff a (some (target, key)) = (
  λ h. (
    (target, key),
    refl,
    ground (arith, is_unique_key_iff target key),
    ground (arith, is_compatible_with_iff a.data_type key.data_type),
  ),
  λ (f, same, unique, fits).
      ground
        (arith, is_unique_key_iff target key, is_compatible_with_iff a.data_type key.data_type),
)

pub reference_iff :
    (s : Schema) (a : Attribute) (reference : Option ForeignKeyRef)
    → (reference_hit severe s a reference ≡ false) ↔ ReferenceFits s a reference
reference_iff s a none = ((λ _. tt), (λ _. refl))
reference_iff s a (some reference) = target_iff a _

abbrev HeldBetween : Option (Entity × Attribute) → Option (Entity × Attribute) → Type 0
HeldBetween from to =
    (f t : Entity × Attribute)
    → from ≡ some f
    → to ≡ some t
    → PointsAt f.1 t.0 t.1 ⊎ PointsAt t.1 f.0 f.1

ends_held_iff :
    (c : Cardinality) (from to : Option (Entity × Attribute))
    → (ends_hit severe c from to ≡ false) ↔ HeldBetween from to
ends_held_iff c none to = ((λ _ f t h _. cc), (λ _. refl))
ends_held_iff c (some from) none = ((λ _ f t _ h. cc), (λ _. refl))
ends_held_iff c (some (from_entity, from)) (some (to_entity, to)) = (
  λ h f t same_from same_to.
      let held : (points_at f.1 t.0 t.1 ≡ true) ⊎ (points_at t.1 f.0 f.1 ≡ true) = ground arith in
      elim held [
        | inl e ↦ inl ((points_at_iff f.1 t.0 t.1).0 e)
        | inr e ↦ inr ((points_at_iff t.1 f.0 f.1).0 e)
      ],
  λ held. elim (held (from_entity, from) (to_entity, to) refl refl) [
    | inl h ↦ ground (arith, (points_at_iff from to_entity to).1 h)
    | inr h ↦ ground (arith, (points_at_iff to from_entity from).1 h)
  ],
)

joins_iff : (c : Cardinality) → (requires_join_table c ≡ true) ↔ (c ≡ many_to_many)
unfolding requires_join_table
joins_iff one_to_one = ground arith
joins_iff one_to_many = ground arith
joins_iff many_to_many = ground arith

pub IsHeld-iff :
    (s : Schema) (link : Relationship) → (link_hit severe s link ≡ false) ↔ IsHeld s link
IsHeld-iff s link =
    let (from, to) =
      ends_held_iff link.cardinality (resolve s link.from_entity_id link.from_attribute_id)
        (resolve s link.to_entity_id link.to_attribute_id) in
    (
      λ h direct. from (ground (arith, joins_iff link.cardinality)),
      λ held. elim (Bool-cases (requires_join_table link.cardinality)) [
        | inl e ↦ rw e
        | inr e ↦ rw e (to (held (λ m. ground (arith, (joins_iff link.cardinality).1 m))))
      ],
    )
