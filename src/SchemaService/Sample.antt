-- ===== src/SchemaService/Sample.antt =====
-- src/module/schema/core/sample.rs: the schema that a new account starts with. A coordinate is the
-- bits of an `f64`.
use schema_forge_backend.Base.{ℕ, [], ◌∷◌, ◌++◌}
use schema_forge_backend.Text.{Text, lit}
use schema_forge_backend.Domain.DataType.{DataTypeKind, simple}
use schema_forge_backend.Domain.Attribute.{
  Attribute, new, as_primary_key, required, as_unique, referencing,
}
use schema_forge_backend.Domain.Entity.{Entity, new as new_entity, with_position, with_attributes}
use schema_forge_backend.Domain.Relationship.{new as new_relationship, one_to_many}
use schema_forge_backend.Domain.Schema.{SchemaDraft}

-- 100.0, 300.0, 400.0 and 500.0
abbrev hundred : ℕ
hundred = 0x4059_0000_0000_0000

abbrev three_hundred : ℕ
three_hundred = 0x4072_c000_0000_0000

abbrev four_hundred : ℕ
four_hundred = 0x4079_0000_0000_0000

abbrev five_hundred : ℕ
five_hundred = 0x407f_4000_0000_0000

unfoldable pub key : Text → Attribute
unfolding new as_primary_key as_unique simple lit
key id = as_unique (as_primary_key (new id (lit "id") (simple DataTypeKind.uuid)))

unfoldable pub reference : (id name entity : Text) → Attribute
unfolding new required referencing simple lit
reference id name entity =
    referencing (record { entity_id = entity; attribute_id = entity ++ lit ".id" })
      (required (new id name (simple DataTypeKind.uuid)))

unfoldable pub varchar : (id name : Text) → Attribute
unfolding new required simple
varchar id name = required (new id name (simple DataTypeKind.varchar))

unfoldable pub text : (id name : Text) → Attribute
unfolding new simple
text id name = new id name (simple DataTypeKind.text)

unfoldable pub timestamp : Text → Attribute
unfolding new required simple lit
timestamp id = required (new id (lit "created_at") (simple DataTypeKind.timestamp))

unfoldable pub users : Entity
unfolding new_entity with_position with_attributes key varchar timestamp as_unique lit
users =
    with_attributes
      (key (lit "users.id")
        ∷ as_unique (varchar (lit "users.email") (lit "email"))
        ∷ varchar (lit "users.name") (lit "name")
        ∷ timestamp (lit "users.created_at")
        ∷ [])
      (with_position (record { x = hundred; y = hundred }) (new_entity (lit "users") (lit "users")))

unfoldable pub posts : Entity
unfolding new_entity with_position with_attributes key reference varchar text timestamp lit
posts =
    with_attributes
      (key (lit "posts.id")
        ∷ reference (lit "posts.user_id") (lit "user_id") (lit "users")
        ∷ varchar (lit "posts.title") (lit "title")
        ∷ text (lit "posts.content") (lit "content")
        ∷ timestamp (lit "posts.created_at")
        ∷ [])
      (with_position (record { x = five_hundred; y = hundred })
        (new_entity (lit "posts") (lit "posts")))

unfoldable pub comments : Entity
unfolding new_entity with_position with_attributes key reference text required timestamp lit
comments =
    with_attributes
      (key (lit "comments.id")
        ∷ reference (lit "comments.post_id") (lit "post_id") (lit "posts")
        ∷ reference (lit "comments.user_id") (lit "user_id") (lit "users")
        ∷ required (text (lit "comments.content") (lit "content"))
        ∷ timestamp (lit "comments.created_at")
        ∷ [])
      (with_position (record { x = three_hundred; y = four_hundred })
        (new_entity (lit "comments") (lit "comments")))

unfoldable pub sample_schema_name : Text
unfolding lit
sample_schema_name = lit "Sample blog"

unfoldable pub sample_schema : SchemaDraft
unfolding users posts comments new_relationship sample_schema_name lit
sample_schema = record {
  name = sample_schema_name;
  description = [];
  entities = users ∷ posts ∷ comments ∷ [];
  relationships =
      new_relationship (lit "rel-users-posts") (lit "users", lit "users.id")
        (lit "posts", lit "posts.user_id") one_to_many
      ∷ new_relationship (lit "rel-posts-comments") (lit "posts", lit "posts.id")
          (lit "comments", lit "comments.post_id") one_to_many
      ∷ new_relationship (lit "rel-users-comments") (lit "users", lit "users.id")
          (lit "comments", lit "comments.user_id") one_to_many
      ∷ [];
}
