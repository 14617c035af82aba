-- ===== src/Verifier/References/Keys.antt =====
-- What the foreign key check adds to a report.
use schema_forge_backend.Base.{Bool, false, not, ◌&&◌, ◌||◌, any, Option, none, some, if◌then◌else◌}
use schema_forge_backend.Domain.DataType.{is_compatible_with}
use schema_forge_backend.Domain.Attribute.{Attribute, ForeignKeyRef}
use schema_forge_backend.Domain.Entity.{Entity}
use schema_forge_backend.Domain.Schema.{Schema, resolve}
use schema_forge_backend.Domain.Diagnostic.{error, warning, an_error, a_warning, about, at, push}
use schema_forge_backend.Domain.Diagnostic.Code
use schema_forge_backend.Domain.Diagnostic.Laws.{
  Flag, Adds, Adds-skip, Adds-push, Adds-then, Adds-unless, Adds-if, Adds-either, Adds-for_each,
}
use schema_forge_backend.Verifier.Names.{is_unique_key}
use schema_forge_backend.Verifier.References.{
  is_narrower, about_both, check_is_key, check_types, check_target, check_reference,
  check_foreign_keys,
}

module _ (p : Flag) where
  abbrev types_hit : Attribute → Attribute → Bool
  types_hit a key =
      if is_compatible_with a.data_type key.data_type
      then is_narrower a.data_type key.data_type && p Code.type_mismatch warning
      else p Code.type_mismatch error

  abbrev pub target_hit : Attribute → Option (Entity × Attribute) → Bool
  target_hit a none = p Code.invalid_foreign_key error
  target_hit a (some (target, key)) =
      (not (is_unique_key target key) && p Code.foreign_key_not_a_key error) || types_hit a key

  abbrev pub reference_hit : Schema → Attribute → Option ForeignKeyRef → Bool
  reference_hit s a none = false
  reference_hit s a (some reference) =
      target_hit a (resolve s reference.entity_id reference.attribute_id)

  check_is_key-Adds :
      (e : Entity) (a : Attribute) (target : Entity) (key : Attribute)
      → Adds p
          (check_is_key e a target key)
          (not (is_unique_key target key) && p Code.foreign_key_not_a_key error)
  unfolding check_is_key about_both at about an_error
  check_is_key-Adds e a target key =
      Adds-unless p (is_unique_key target key) (push _) _ (Adds-push p _)

  check_types-Adds :
      (e : Entity) (a : Attribute) (target : Entity) (key : Attribute)
      → Adds p (check_types e a target key) (types_hit a key)
  unfolding check_types about_both at about an_error a_warning
  check_types-Adds e a target key =
      Adds-either p (is_compatible_with a.data_type key.data_type) _ (push _) _ _
        (Adds-if p (is_narrower a.data_type key.data_type) (push _) _ (Adds-push p _))
        (Adds-push p _)

  check_target-Adds :
      (e : Entity) (a : Attribute) (found : Option (Entity × Attribute))
      → Adds p (check_target e a found) (target_hit a found)
  unfolding check_target at about an_error
  check_target-Adds e a none = Adds-push p _
  check_target-Adds e a (some (target, key)) =
      Adds-then p (check_is_key e a target key) (check_types e a target key) _ _
        (check_is_key-Adds e a target key) (check_types-Adds e a target key)

  check_reference-Adds :
      (s : Schema) (e : Entity) (a : Attribute) (reference : Option ForeignKeyRef)
      → Adds p (check_reference s e a reference) (reference_hit s a reference)
  unfolding check_reference
  check_reference-Adds s e a none = Adds-skip p
  check_reference-Adds s e a (some reference) = check_target-Adds e a _

  pub check_foreign_keys-Adds :
      (s : Schema)
      → Adds p
          (check_foreign_keys s)
          (any (λ e. any (λ a. reference_hit s a a.foreign_key) e.attributes) s.entities)
  unfolding check_foreign_keys
  check_foreign_keys-Adds s =
      Adds-for_each p _ _
        (λ e. Adds-for_each p _ _ (λ a. check_reference-Adds s e a a.foreign_key) e.attributes)
        s.entities
