-- ===== src/Verifier/Names.antt =====
-- How the messages of the verifier name a table, a column and a relationship, and which columns are
-- keys on their own: src/module/schema/core/service/verifier/mod.rs.
use schema_forge_backend.Base.{
  Bool, ◌&&◌, ◌||◌, ◌==◌, nat_eq, length, is_empty, if◌then◌else◌, ◌∷◌, ◌++◌, Option, none, some,
}
use schema_forge_backend.Text.{Text, lit, ticked}
use schema_forge_backend.Text.Trim.{trim}
use schema_forge_backend.Domain.Attribute.{Attribute}
use schema_forge_backend.Domain.Entity.{Entity, primary_key}
use schema_forge_backend.Domain.Relationship.{Relationship}
use schema_forge_backend.Domain.Schema.{Schema, entity}

unfoldable pub table : Entity → Text
unfolding lit ticked
table e = let name = trim e.name in if is_empty name then lit "an unnamed table" else ticked name

unfoldable pub column : Entity → Attribute → Text
unfolding ticked
column e a = ticked (trim e.name ++ b'.' ∷ trim a.name)

between : Option Entity → Option Entity → Text
unfolding lit table
between (some from) (some to) =
    lit "the relationship between " ++ (table from ++ (lit " and " ++ table to))
between (some from) none = lit "a relationship"
between none _ = lit "a relationship"

unfoldable pub relationship : Schema → Relationship → Text
unfolding lit ticked between entity
relationship s r =
    if is_empty (trim r.name)
    then between (entity s r.from_entity_id) (entity s r.to_entity_id)
    else lit "relationship " ++ ticked (trim r.name)

unfoldable pub is_unique_key : Entity → Attribute → Bool
unfolding primary_key
is_unique_key e a = a.unique || (a.primary_key && length (primary_key e) == 1)
