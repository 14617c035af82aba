-- ===== src/Verifier/References.antt =====
-- src/module/schema/core/service/verifier/references.rs
pub mod Keys
pub mod Links
use schema_forge_backend.Base.{
  ℕ, Bool, true, false, not, ◌&&◌, ◌||◌, ◌==◌, nat_eq, list_eq, ltb, if◌then◌else◌, ◌++◌, Option,
  none, some, for_each,
}
use schema_forge_backend.Text.{Text, lit}
use schema_forge_backend.Domain.DataType.{
  DataType, DataTypeKind, TypeFamily, family, is_compatible_with, display,
}
use schema_forge_backend.Domain.Attribute.{Attribute, ForeignKeyRef}
use schema_forge_backend.Domain.Entity.{Entity}
use schema_forge_backend.Domain.Relationship.{
  Relationship, Cardinality, one_to_one, one_to_many, many_to_many, requires_join_table,
}
use schema_forge_backend.Domain.Schema.{Schema, resolve}
use schema_forge_backend.Domain.Diagnostic.{
  Diagnostic, Report, an_error, a_warning, about, at, push,
}
use schema_forge_backend.Domain.Diagnostic.Code
use schema_forge_backend.Verifier.Names.{column, relationship, is_unique_key}

unfoldable pub width : DataTypeKind → ℕ
width DataTypeKind.small_int = 2
width DataTypeKind.integer = 4
width _ = 8

bound_of : DataTypeKind → Option ℕ → Option ℕ
bound_of DataTypeKind.text length = none
bound_of _ length = length

unfoldable pub bound : DataType → Option ℕ
unfolding bound_of
bound t = bound_of t.kind t.length

shorter : Option ℕ → Option ℕ → Bool
shorter (some column) (some key) = ltb column key
shorter (some _) none = true
shorter none _ = false

narrower_in : TypeFamily → DataType → DataType → Bool
unfolding width bound shorter
narrower_in TypeFamily.integral column key = ltb (width column.kind) (width key.kind)
narrower_in TypeFamily.textual column key = shorter (bound column) (bound key)
narrower_in _ column key = false

unfoldable pub is_narrower : DataType → DataType → Bool
unfolding narrower_in
is_narrower column key = narrower_in (family column.kind) column key

-- The four elements that a finding about a reference names, and where it is shown.
about_both : Entity → Attribute → Entity → Attribute → Diagnostic → Diagnostic
about_both e a target key d =
    at e.position (about key.id (about target.id (about a.id (about e.id d))))

check_is_key : Entity → Attribute → Entity → Attribute → Report → Report
unfolding lit about_both
check_is_key e a target key report =
    if is_unique_key target key
    then report
    else push
        (about_both e a target key (
          an_error Code.foreign_key_not_a_key (
            column e a
            ++ (lit " references "
                ++ (column target key ++ lit ", which is neither the primary key nor unique")))))
        report

mismatch_text : Entity → Attribute → Entity → Attribute → Text
unfolding lit
mismatch_text e a target key =
    column e a
    ++ (lit " is "
        ++ (display a.data_type
            ++ (lit " but references "
                ++ (column target key ++ (lit ", which is " ++ display key.data_type)))))

check_types : Entity → Attribute → Entity → Attribute → Report → Report
unfolding lit about_both mismatch_text
check_types e a target key report =
    if is_compatible_with a.data_type key.data_type
    then if is_narrower a.data_type key.data_type
      then push
          (about_both e a target key (
            a_warning Code.type_mismatch
              (mismatch_text e a target key ++ lit ", so some keys will not fit")))
          report
      else report
    else push
        (about_both e a target key (an_error Code.type_mismatch (mismatch_text e a target key)))
        report

check_target : Entity → Attribute → Option (Entity × Attribute) → Report → Report
unfolding lit check_is_key check_types
check_target e a none report =
    push
      (at e.position (
        about a.id (
          about e.id (
            an_error Code.invalid_foreign_key
              (column e a ++ lit " references a column that does not exist")))))
      report
check_target e a (some (target, key)) report =
    check_types e a target key (check_is_key e a target key report)

check_reference : Schema → Entity → Attribute → Option ForeignKeyRef → Report → Report
unfolding check_target
check_reference s e a none report = report
check_reference s e a (some reference) report =
    check_target e a (resolve s reference.entity_id reference.attribute_id) report

unfoldable pub check_foreign_keys : Schema → Report → Report
unfolding check_reference
check_foreign_keys s report =
    for_each s.entities (λ e. for_each e.attributes (λ a. check_reference s e a a.foreign_key))
      report

reference_is : Option ForeignKeyRef → Entity → Attribute → Bool
reference_is none e key = false
reference_is (some reference) e key =
    reference.entity_id == e.id && reference.attribute_id == key.id

unfoldable pub points_at : Attribute → Entity → Attribute → Bool
unfolding reference_is
points_at a e key = reference_is a.foreign_key e key

warn_cardinality : Relationship → Entity → Attribute → Text → Report → Report
warn_cardinality link e a message report =
    push
      (at e.position
        (about a.id (about e.id (about link.id (a_warning Code.cardinality_mismatch message)))))
      report

-- The holder of the foreign key is known: the cardinality that its uniqueness does not fit.
check_cardinality : Schema → Relationship → Cardinality → Entity → Attribute → Report → Report
unfolding lit warn_cardinality
check_cardinality s link one_to_one e a report =
    if is_unique_key e a
    then report
    else warn_cardinality link e a
        (relationship s link
          ++ (lit " is one-to-one, but "
              ++ (column e a ++ lit " is not unique, so many rows can point at the same row")))
        report
check_cardinality s link one_to_many e a report =
    if is_unique_key e a
    then warn_cardinality link e a
        (relationship s link
          ++ (lit " is one-to-many, but "
              ++ (column e a ++ lit " is unique, so each row can only be pointed at once")))
        report
    else report
check_cardinality s link many_to_many e a report = report

check_link_ends :
    Schema
    → Relationship
    → Option (Entity × Attribute)
    → Option (Entity × Attribute)
    → Report
    → Report
unfolding lit check_cardinality points_at
check_link_ends s link (some (from_entity, from)) (some (to_entity, to)) report =
    if points_at from to_entity to
    then check_cardinality s link link.cardinality from_entity from report
    else if points_at to from_entity from
    then check_cardinality s link link.cardinality to_entity to report
    else push
        (at from_entity.position (
          about link.id (
            an_error Code.relationship_without_foreign_key (
              relationship s link
              ++ (lit " joins "
                  ++ (column from_entity from
                      ++ (lit " and "
                          ++ (column to_entity to
                              ++ lit ", but neither column is a foreign key to the other"))))))))
        report
check_link_ends s link (some from) none report = report
check_link_ends s link none to report = report

check_link : Schema → Relationship → Report → Report
unfolding check_link_ends
check_link s link report =
    if requires_join_table link.cardinality
    then report
    else check_link_ends s link (resolve s link.from_entity_id link.from_attribute_id)
        (resolve s link.to_entity_id link.to_attribute_id) report

unfoldable pub check_relationships : Schema → Report → Report
unfolding check_link
check_relationships s report = for_each s.relationships (check_link s) report
