-- ===== src/Generator/Table.antt =====
-- src/module/schema/core/service/generator/table.rs
use schema_forge_backend.Base.{
  not, ◌&&◌, List, [], ◌∷◌, ◌++◌, map, is_empty, if◌then◌else◌, Option, none, some,
}
use schema_forge_backend.Text.{Text, lit, join}
use schema_forge_backend.Text.Case.{Unicode}
use schema_forge_backend.Domain.DataType.{display}
use schema_forge_backend.Domain.Attribute.{Attribute}
use schema_forge_backend.Domain.Entity.{Entity, primary_key}
use schema_forge_backend.Generator.Quote.{quote}

default_clause : Option Text → Text
unfolding lit
default_clause none = []
default_clause (some value) = lit " DEFAULT " ++ value

unfoldable pub column : Unicode → Attribute → Text
unfolding lit quote display default_clause
column unicode a =
    quote a.name
    ++ (b' ' ∷ unicode.to_uppercase (display a.data_type)
        ++ ((if a.nullable then [] else lit " NOT NULL")
            ++ (default_clause a.default_value
                ++ (if a.unique && not a.primary_key then lit " UNIQUE" else []))))

unfoldable pub primary_key_clause : Entity → Option Text
unfolding lit quote join primary_key
primary_key_clause e =
    if is_empty (primary_key e)
    then none
    else some (
        lit "PRIMARY KEY ("
        ++ (join (lit ", ") (map (λ a. quote a.name) (primary_key e)) ++ lit ")"))

with_clause : List Text → Option Text → List Text
with_clause lines none = lines
with_clause lines (some clause) = lines ++ clause ∷ []

unfoldable pub lines : Unicode → Entity → List Text
unfolding column primary_key_clause with_clause
lines unicode e = with_clause (map (column unicode) e.attributes) (primary_key_clause e)

unfoldable pub create_table : Unicode → Entity → Text
unfolding lit quote join lines
create_table unicode e =
    if is_empty (lines unicode e)
    then lit "CREATE TABLE " ++ (quote e.name ++ lit " ();")
    else lit "CREATE TABLE "
      ++ (quote e.name
          ++ (lit " (\n    " ++ (join (lit ",\n    ") (lines unicode e) ++ lit "\n);")))
