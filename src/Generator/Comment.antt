-- ===== src/Generator/Comment.antt =====
-- src/module/schema/core/service/generator/comment.rs
use schema_forge_backend.Base.{List, [], ◌∷◌, ◌++◌, flat_map, if◌then◌else◌}
use schema_forge_backend.Text.{Text, lit}
use schema_forge_backend.Domain.Attribute.{Attribute, is_documented as is_documented_attribute}
use schema_forge_backend.Domain.Entity.{Entity, is_documented as is_documented_entity}
use schema_forge_backend.Domain.Schema.{Schema}
use schema_forge_backend.Generator.Quote.{quote, literal}

unfoldable pub comment_on_table : Entity → Text
unfolding lit
comment_on_table e =
    lit "COMMENT ON TABLE " ++ (quote e.name ++ (lit " IS " ++ (literal e.description ++ lit ";")))

unfoldable pub comment_on_column : Entity → Attribute → Text
unfolding lit
comment_on_column e a =
    lit "COMMENT ON COLUMN "
    ++ (quote e.name
        ++ (lit "." ++ (quote a.name ++ (lit " IS " ++ (literal a.description ++ lit ";")))))

comments_on : Entity → List Text
unfolding comment_on_table comment_on_column is_documented_entity is_documented_attribute quote
    literal
comments_on e =
    (if is_documented_entity e then comment_on_table e ∷ [] else [])
    ++ flat_map (λ a. if is_documented_attribute a then comment_on_column e a ∷ [] else [])
        e.attributes

unfoldable pub comments : Schema → List Text
unfolding comments_on
comments s = flat_map comments_on s.entities
