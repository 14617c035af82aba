-- ===== src/Verifier/Structure.antt =====
-- src/module/schema/core/service/verifier/structure.rs
pub mod Groups
pub mod Laws
use schema_forge_backend.Base.{
  Bool, not, ◌==◌, nat_eq, list_eq, ltb, is_empty, if◌then◌else◌, List, [], ◌∷◌, ◌++◌, map, filter,
  for_each, length,
}
use schema_forge_backend.Text.{Text, lit, ticked}
use schema_forge_backend.Text.Trim.{trim}
use schema_forge_backend.Text.Case.{Unicode}
use schema_forge_backend.Text.Decimal.{decimal}
use schema_forge_backend.Domain.Attribute.{Attribute}
use schema_forge_backend.Domain.Entity.{Entity, has_primary_key}
use schema_forge_backend.Domain.Schema.{Schema}
use schema_forge_backend.Domain.Diagnostic.{Diagnostic, Report, an_error, about, at, push}
use schema_forge_backend.Domain.Diagnostic.Code
use schema_forge_backend.Verifier.Names.{table}

-- The name that two elements share when the database would take them for one.
unfoldable pub folded : Unicode → Text → Text
folded unicode name = unicode.to_lowercase (trim name)

module _ {A : Type 0} where
  -- The member joins the first group with its key, or opens a group at the end.
  unfoldable pub join_group : Text → A → List (Text × List A) → List (Text × List A)
  join_group key item [] = (key, item ∷ []) ∷ []
  join_group key item ((existing, members) ∷ groups) =
      if existing == key
      then (existing, members ++ item ∷ []) ∷ groups
      else (existing, members) ∷ join_group key item groups

  unfoldable pub group_item : (A → Text) → A → List (Text × List A) → List (Text × List A)
  unfolding join_group
  group_item key_of item groups =
      if is_empty (key_of item) then groups else join_group (key_of item) item groups

  unfoldable pub same_name_groups : (A → Text) → List A → List (List A)
  unfolding group_item
  same_name_groups key_of items =
      filter (λ members. ltb 1 (length members))
        (map (λ g. g.1) (for_each items (group_item key_of) []))

first_name : List Entity → Text
first_name [] = []
first_name (e ∷ _) = trim e.name

first_attribute_name : List Attribute → Text
first_attribute_name [] = []
first_attribute_name (a ∷ _) = trim a.name

at_first : List Entity → Diagnostic → Diagnostic
at_first [] d = d
at_first (e ∷ _) d = at e.position d

report_entity_group : List Entity → Report → Report
unfolding lit ticked first_name at_first
report_entity_group group report =
    push
      (for_each group (λ e. about e.id)
        (at_first group (
          an_error Code.duplicate_entity_name
            (decimal (length group) ++ (lit " tables are named " ++ ticked (first_name group))))))
      report

report_attribute_group : Entity → List Attribute → Report → Report
unfolding lit ticked first_attribute_name
report_attribute_group e group report =
    push
      (for_each group (λ a. about a.id)
        (at e.position (
          about e.id (
            an_error Code.duplicate_attribute_name (
              table e
              ++ (lit " has "
                  ++ (decimal (length group)
                      ++ (lit " columns named " ++ ticked (first_attribute_name group)))))))))
      report

unfoldable pub check_duplicate_names : Unicode → Schema → Report → Report
unfolding report_entity_group report_attribute_group
check_duplicate_names unicode s report =
    for_each s.entities
      (λ e.
        for_each (same_name_groups (λ a. folded unicode a.name) e.attributes)
          (report_attribute_group e))
      (for_each (same_name_groups (λ e. folded unicode e.name) s.entities) report_entity_group
        report)

check_primary_key : Entity → Report → Report
unfolding lit
check_primary_key e report =
    if has_primary_key e
    then report
    else push
        (at e.position
          (about e.id (an_error Code.missing_primary_key (table e ++ lit " has no primary key"))))
        report

unfoldable pub check_primary_keys : Schema → Report → Report
unfolding check_primary_key
check_primary_keys s report = for_each s.entities check_primary_key report
