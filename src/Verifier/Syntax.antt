-- ===== src/Verifier/Syntax.antt =====
-- src/module/schema/core/service/verifier/syntax.rs
pub mod Laws
use schema_forge_backend.Base.{
  ℕ, Bool, true, false, ◌&&◌, ◌==◌, nat_eq, ltb, is_empty, is_some, if◌then◌else◌, ◌++◌, Option,
  none, some, for_each,
}
use schema_forge_backend.Text.{Text, lit}
use schema_forge_backend.Text.Trim.{trim}
use schema_forge_backend.Text.Decimal.{decimal}
use schema_forge_backend.Domain.DataType.{DataType, takes_length, takes_precision, display}
use schema_forge_backend.Domain.Attribute.{Attribute}
use schema_forge_backend.Domain.Entity.{Entity}
use schema_forge_backend.Domain.Relationship.{Relationship}
use schema_forge_backend.Domain.Schema.{Schema, entity, resolve, has_no_entities}
use schema_forge_backend.Domain.Diagnostic.{
  Diagnostic, Report, an_error, a_warning, about, at, push,
}
use schema_forge_backend.Domain.Diagnostic.Code
use schema_forge_backend.Verifier.Names.{table, column, relationship}

abbrev max_length : ℕ
max_length = 10_485_760

abbrev max_precision : ℕ
max_precision = 1000

unfoldable pub check_not_empty : Schema → Report → Report
unfolding lit
check_not_empty s report =
    if has_no_entities s
    then push (a_warning Code.empty_schema (lit "the schema has no tables yet")) report
    else report

check_attribute_name : Entity → Attribute → Report → Report
unfolding lit
check_attribute_name e a report =
    if is_empty (trim a.name)
    then push
        (at e.position (
          about a.id (
            about e.id
              (an_error Code.empty_name (lit "a column in " ++ (table e ++ lit " has no name"))))))
        report
    else report

check_entity_name : Entity → Report → Report
unfolding lit
check_entity_name e report =
    if is_empty (trim e.name)
    then push (at e.position (about e.id (an_error Code.empty_name (lit "a table has no name"))))
        report
    else report

unfoldable pub check_names : Schema → Report → Report
unfolding check_entity_name check_attribute_name
check_names s report =
    for_each s.entities
      (λ e r. for_each e.attributes (check_attribute_name e) (check_entity_name e r)) report

length_problem : Option ℕ → Option Text
unfolding lit
length_problem none = none
length_problem (some length) =
    if length == 0
    then some (lit "a length has to be at least 1")
    else if ltb max_length length
    then some (lit "PostgreSQL allows a length of at most " ++ decimal max_length)
    else none

scale_problem : Option ℕ → Option Text
unfolding lit
scale_problem none = none
scale_problem (some scale) =
    if ltb max_precision scale
    then some (lit "PostgreSQL allows a scale of at most " ++ decimal max_precision)
    else none

precision_problem : Option ℕ → Option ℕ → Option Text
unfolding lit scale_problem
precision_problem none (some scale) = some (lit "a scale needs a precision")
precision_problem none none = none
precision_problem (some precision) scale =
    if precision == 0
    then some (lit "a precision has to be at least 1")
    else if ltb max_precision precision
    then some (lit "PostgreSQL allows a precision of at most " ++ decimal max_precision)
    else scale_problem scale

unfoldable pub parameter_problem : DataType → Option Text
unfolding length_problem precision_problem
parameter_problem t =
    if takes_length t.kind
    then length_problem t.length
    else if takes_precision t.kind
    then precision_problem t.precision t.scale
    else none

report_problem : Entity → Attribute → Option Text → Report → Report
unfolding lit
report_problem e a none report = report
report_problem e a (some problem) report =
    push
      (at e.position (
        about a.id (
          about e.id (
            an_error Code.invalid_type_parameter
              (column e a ++ (lit " is " ++ (display a.data_type ++ (lit ", but " ++ problem))))))))
      report

unfoldable pub check_type_parameters : Schema → Report → Report
unfolding report_problem
check_type_parameters s report =
    for_each s.entities
      (λ e. for_each e.attributes (λ a. report_problem e a (parameter_problem a.data_type))) report

or_else {ℓ} : {A : Type ℓ} → Option A → Option A → Option A
or_else (some a) b = some a
or_else none b = b

at_entity : Option Entity → Diagnostic → Diagnostic
at_entity (some e) d = at e.position d
at_entity none d = d

unfoldable pub ends_resolve : Schema → Relationship → Bool
ends_resolve s link =
    is_some (resolve s link.from_entity_id link.from_attribute_id)
    && is_some (resolve s link.to_entity_id link.to_attribute_id)

check_ends : Schema → Relationship → Report → Report
unfolding lit or_else at_entity ends_resolve
check_ends s link report =
    if ends_resolve s link
    then report
    else push
        (at_entity (or_else (entity s link.from_entity_id) (entity s link.to_entity_id)) (
          about link.id (
            an_error Code.dangling_relationship
              (relationship s link ++ lit " points at a table or column that does not exist"))))
        report

unfoldable pub check_relationship_ends : Schema → Report → Report
unfolding check_ends
check_relationship_ends s report = for_each s.relationships (check_ends s) report
