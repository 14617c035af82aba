-- ===== src/Verifier/Documentation/Laws.antt =====
-- What the documentation check adds to a report.
use schema_forge_backend.Base.{Bool, not, ◌&&◌, ◌||◌, any, is_empty, for_each}
use schema_forge_backend.Domain.Attribute.{Attribute}
use schema_forge_backend.Domain.Entity.{Entity, is_documented as is_documented_entity}
use schema_forge_backend.Domain.Relationship.{Relationship, is_documented as is_documented_link}
use schema_forge_backend.Domain.Schema.{Schema}
use schema_forge_backend.Domain.Diagnostic.{warning, a_warning, about, at, push}
use schema_forge_backend.Domain.Diagnostic.Code
use schema_forge_backend.Domain.Diagnostic.Laws.{
  Flag, Adds, Adds-push, Adds-then, Adds-unless, Adds-cast, Adds-for_each_and, for_each-about,
}
use schema_forge_backend.Verifier.Documentation.{
  undocumented, check_entity_documentation, check_link_documentation, check_documentation,
}

abbrev pub lacks_documentation : Entity → Bool
lacks_documentation e = not (is_documented_entity e && is_empty (undocumented e))

module _ (p : Flag) where
  check_entity-Adds :
      (e : Entity)
      → Adds p
          (check_entity_documentation e)
          (lacks_documentation e && p Code.missing_description warning)
  unfolding check_entity_documentation at about a_warning
  check_entity-Adds e =
      Adds-unless p (is_documented_entity e && is_empty (undocumented e)) (push _) _ (
        Adds-cast p (push _) (for_each-about (λ (a : Attribute). a.id) p (undocumented e) _)
          (Adds-push p _))

  check_link-Adds :
      (s : Schema) (link : Relationship)
      → Adds p
          (check_link_documentation s link)
          (not (is_documented_link link) && p Code.missing_description warning)
  unfolding check_link_documentation about a_warning
  check_link-Adds s link = Adds-unless p (is_documented_link link) (push _) _ (Adds-push p _)

  pub check_documentation-Adds :
      (s : Schema)
      → Adds p (check_documentation s) (
          (any lacks_documentation s.entities && p Code.missing_description warning)
          || (any (λ link. not (is_documented_link link)) s.relationships
              && p Code.missing_description warning))
  unfolding check_documentation
  check_documentation-Adds s =
      Adds-then p (for_each s.entities check_entity_documentation)
        (for_each s.relationships (check_link_documentation s)) _ _
        (Adds-for_each_and p check_entity_documentation lacks_documentation _ check_entity-Adds
          s.entities)
        (Adds-for_each_and p (check_link_documentation s) (λ link. not (is_documented_link link)) _
          (check_link-Adds s) s.relationships)
