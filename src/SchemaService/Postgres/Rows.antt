-- ===== src/SchemaService/Postgres/Rows.antt =====
-- The tables of src/migrations/schema that src/module/schema/adapter/repository/postgres.rs reads and
-- writes, and what it asks of PostgreSQL, sqlx, serde and the `uuid` crate, a parameter. A failure is
-- the text that sqlx gives it. `Doc` is a JSONB document.
use schema_forge_backend.Base.{
  ℕ, ℤ, ◌==◌, nat_eq, map, filter, flat_map, List, Option, Result, ok, err, Action,
}
use schema_forge_backend.Text.{Text}
use schema_forge_backend.SchemaService.Ports.{Uuid}
use schema_forge_backend.SchemaService.Postgres.Stored.{StoredEntity, StoredRelationship}

-- A row of schemaforge.schemas, whose primary key is `id`.
pub record SchemaRow (Doc : Type 0) : Type 0 where
  pub id : Uuid
  pub name : Text
  pub description : Text
  pub entities : Doc
  pub relationships : Doc
  pub created_at : ℕ
  pub updated_at : ℕ

-- A row of schemaforge.user_schemas, whose primary key is `schema_id`, the id of a schema.
pub record Ownership : Type 0 where
  pub user_id : Uuid
  pub schema_id : Uuid
  pub created_at : ℕ

pub record Tables (Doc : Type 0) : Type 0 where
  pub schemas : List (SchemaRow Doc)
  pub user_schemas : List Ownership

-- `INNER JOIN schemaforge.user_schemas us ON us.schema_id = s.id`, for one row of the latter and for
-- all of them.
abbrev pub rows_of :
    {Doc : Type 0} → List (SchemaRow Doc) → Ownership → List (SchemaRow Doc × Ownership)
rows_of schemas us = map (λ s. (s, us)) (filter (λ s. s.id == us.schema_id) schemas)

abbrev pub joined : {Doc : Type 0} → Tables Doc → List (SchemaRow Doc × Ownership)
joined t = flat_map (rows_of t.schemas) t.user_schemas

pub record Outside (Doc W : Type 0) : Type 0 where
  -- `to_string` and `Uuid::parse_str(..).ok()`
  pub uuid_text : Uuid → Text
  pub parse_uuid : Text → Option Uuid
  -- `Json(..)`, and what `try_get` makes of a column of that type
  pub entities_doc : List StoredEntity → Doc
  pub relationships_doc : List StoredRelationship → Doc
  pub read_entities : Doc → Result (List StoredEntity) Text
  pub read_relationships : Doc → Result (List StoredRelationship) Text
  pub jsonb_array_length : Doc → ℤ
  -- `LOWER`, and what `VARCHAR(120)` says of a name
  pub lower : Text → Text
  pub name_fits : Text → Result (Unit {0}) Text
  -- the failure of a key that is taken, and of a `LIMIT` or an `OFFSET` below zero
  pub taken_text : Text
  pub range_text : Text
  -- `uuid_generate_v4()` and `NOW()`
  pub new_uuid : W → Uuid × W
  pub now : W → ℕ × W
  -- whether a statement is carried out, `BEGIN` and `COMMIT` as well
  pub statement : Action W Text (Unit {0})

-- The state of a call: the tables beside the state of everything else.
abbrev pub World : (Doc W : Type 0) → Type 0
World Doc W = Tables Doc × W

module _ {Doc W : Type 0} where
  -- A failure rolls back.
  abbrev pub rolled :
      {E A : Type 0} → Tables Doc → Result A E × World Doc W → Result A E × World Doc W
  rolled t (ok a, s) = (ok a, s)
  rolled t (err e, (_, w)) = (err e, (t, w))

  unfoldable pub transaction : {E A : Type 0} → Action (World Doc W) E A → Action (World Doc W) E A
  transaction m (t, w) = rolled t (m (t, w))
