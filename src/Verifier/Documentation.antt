-- ===== src/Verifier/Documentation.antt =====
-- src/module/schema/core/service/verifier/documentation.rs
pub mod Laws
use schema_forge_backend.Base.{
  Bool, true, false, not, ◌&&◌, List, [], ◌++◌, map, filter, for_each, is_empty, if◌then◌else◌,
}
use schema_forge_backend.Text.{Text, lit, ticked, join}
use schema_forge_backend.Text.Trim.{trim}
use schema_forge_backend.Domain.Attribute.{Attribute, is_documented as is_documented_attribute}
use schema_forge_backend.Domain.Entity.{Entity, is_documented as is_documented_entity}
use schema_forge_backend.Domain.Relationship.{Relationship, is_documented as is_documented_link}
use schema_forge_backend.Domain.Schema.{Schema}
use schema_forge_backend.Domain.Diagnostic.{Report, a_warning, about, at, push}
use schema_forge_backend.Domain.Diagnostic.Code
use schema_forge_backend.Verifier.Names.{table, relationship}

unfoldable pub undocumented : Entity → List Attribute
undocumented e = filter (λ a. not (is_documented_attribute a)) e.attributes

-- The message, by whether the table is documented and whether all of its columns are.
documentation_message : Bool → Bool → Text → Text → Text
unfolding lit
documentation_message false true name columns = name ++ lit " has no description"
documentation_message false false name columns =
    name ++ (lit " has no description, and neither do these columns: " ++ columns)
documentation_message true _ name columns =
    name ++ (lit " has columns with no description: " ++ columns)

check_entity_documentation : Entity → Report → Report
unfolding lit ticked join undocumented documentation_message
check_entity_documentation e report =
    if is_documented_entity e && is_empty (undocumented e)
    then report
    else push
        (for_each (undocumented e) (λ a. about a.id)
          (at e.position (
            about e.id (
              a_warning Code.missing_description (
                documentation_message (is_documented_entity e) (is_empty (undocumented e)) (table e)
                  (join (lit ", ") (map (λ a. ticked (trim a.name)) (undocumented e))))))))
        report

check_link_documentation : Schema → Relationship → Report → Report
unfolding lit
check_link_documentation s link report =
    if is_documented_link link
    then report
    else push
        (about link.id
          (a_warning Code.missing_description (relationship s link ++ lit " has no description")))
        report

unfoldable pub check_documentation : Schema → Report → Report
unfolding check_entity_documentation check_link_documentation
check_documentation s report =
    for_each s.relationships (check_link_documentation s)
      (for_each s.entities check_entity_documentation report)
