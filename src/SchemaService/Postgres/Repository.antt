-- ===== src/SchemaService/Postgres/Repository.antt =====
-- src/module/schema/adapter/repository/postgres.rs: `PgSchemaRepository`, whole but its log lines.
use schema_forge_backend.Base.{
  ℕ, ℤ, pos, Bool, ◌&&◌, ◌==◌, nat_eq, list_eq, if◌then◌else◌, List, map, filter, find, any, length,
  Option, none, some, Result, ok, ok_or, map_err, Action, pure, fail, settled, failing, ◌>>=◌, ◌>>◌,
  within, drawn, tables_of, write,
}
use schema_forge_backend.Text.{Text}
use schema_forge_backend.Domain.Schema.{Schema, SchemaDraft, SchemaSummary}
use schema_forge_backend.Pagination.{ListRequest, offset}
use schema_forge_backend.SchemaService.Ports.{
  Uuid, DomainError, schema_not_found, duplicate_schema_name, storage, SchemaRepository,
}
use schema_forge_backend.SchemaService.Postgres.Stored.{
  drawing, and_then, collect, restored_entity, restored_relationship,
}
use schema_forge_backend.SchemaService.Postgres.Rows.{
  SchemaRow, Ownership, Tables, joined, Outside, World, transaction,
}
use schema_forge_backend.SchemaService.Postgres.Statements.{
  count, paged, is_other, ordered, is_hit, inserted, owned_by, set_row, updated, deleted,
}

module _ {Doc W : Type 0} (o : Outside Doc W) where
  -- A statement, and its failure as `PgSchemaRepository::storage` gives it.
  abbrev pub statement : Action (World Doc W) DomainError (Unit {0})
  statement = failing storage (within o.statement)

  unfoldable pub map_schema : SchemaRow Doc → Result Schema DomainError
  unfolding collect restored_entity restored_relationship
  map_schema row = and_then (map_err storage (o.read_entities row.entities)) λ entities.
      and_then (map_err storage (o.read_relationships row.relationships)) λ relationships.
        and_then (collect restored_entity entities) λ restored.
          and_then (collect restored_relationship relationships) λ links. ok (record {
            id = o.uuid_text row.id;
            name = row.name;
            description = row.description;
            entities = restored;
            relationships = links;
            created_at = row.created_at;
            updated_at = row.updated_at;
          })

  unfoldable pub map_summary : SchemaRow Doc → SchemaSummary
  map_summary row = record {
    id = o.uuid_text row.id;
    name = row.name;
    description = row.description;
    entity_count = count (o.jsonb_array_length row.entities);
    relationship_count = count (o.jsonb_array_length row.relationships);
    created_at = row.created_at;
    updated_at = row.updated_at;
  }

  -- `row.as_ref().map(Self::map_schema).transpose()`
  unfoldable pub transposed :
      Option (SchemaRow Doc × Ownership) → Result (Option Schema) DomainError
  unfolding map_schema
  transposed none = ok none
  transposed (some row) = and_then (map_schema row.0) λ schema. ok (some schema)

  -- `SELECT EXISTS (…)` of a schema of the owner's under that name.
  abbrev pub is_taken : Uuid → Text → Option Uuid → Tables Doc → Bool
  is_taken owner name except t =
      any
        (λ (row : SchemaRow Doc × Ownership).
          row.1.user_id == owner && o.lower row.0.name == o.lower name && is_other row.0.id except)
        (joined t)

  unfoldable pub reserve_name :
      Uuid → Text → Option Uuid → Action (World Doc W) DomainError (Unit {0})
  reserve_name owner name except = do
    statement
    statement
    t ← tables_of
    if is_taken owner name except t then fail (duplicate_schema_name name) else pure tt

  unfoldable pub index :
      Uuid → ListRequest → Action (World Doc W) DomainError (List SchemaSummary × ℤ)
  unfolding map_summary ordered offset
  index owner request = do
    statement
    counted ← tables_of
    statement
    t ← tables_of
    rows ← settled (
        ok_or (storage o.range_text) (
          paged request.per_page (offset request) (
            ordered
              (filter (λ (row : SchemaRow Doc × Ownership). row.1.user_id == owner) (joined t)))))
    pure (
      map (λ (row : SchemaRow Doc × Ownership). map_summary row.0) rows,
      pos (length (filter (λ us. us.user_id == owner) counted.user_schemas)),
    )

  -- The row that `INSERT INTO schemaforge.schemas` makes.
  abbrev pub new_row : SchemaDraft → Uuid → ℕ → SchemaRow Doc
  unfolding drawing
  new_row draft id now = record {
    id = id;
    name = draft.name;
    description = draft.description;
    entities = o.entities_doc (drawing draft).0;
    relationships = o.relationships_doc (drawing draft).1;
    created_at = now;
    updated_at = now;
  }

  unfoldable pub insert_schema : SchemaDraft → Action (World Doc W) DomainError (SchemaRow Doc)
  unfolding new_row
  insert_schema draft = do
    statement
    settled (map_err storage (o.name_fits draft.name))
    id ← drawn o.new_uuid
    now ← drawn o.now
    t ← tables_of
    if any (λ s. s.id == id) t.schemas
        then fail (storage o.taken_text)
        else (do write (inserted (new_row draft id now)); pure (new_row draft id now))

  unfoldable pub insert_ownership :
      Uuid → SchemaRow Doc → Action (World Doc W) DomainError (Unit {0})
  insert_ownership owner row = do
    statement
    t ← tables_of
    if any (λ us. us.schema_id == row.id) t.user_schemas
        then fail (storage o.taken_text)
        else write (owned_by owner row)

  unfoldable pub create : Uuid → SchemaDraft → Action (World Doc W) DomainError Schema
  unfolding reserve_name insert_schema map_schema insert_ownership transaction
  create owner draft = transaction (do
    statement
    reserve_name owner draft.name none
    row ← insert_schema draft
    schema ← settled (map_schema row)
    insert_ownership owner row
    statement
    pure schema)

  unfoldable pub find_row :
      (SchemaRow Doc × Ownership → Bool) → Action (World Doc W) DomainError (Option Schema)
  unfolding transposed
  find_row p = do statement; t ← tables_of; settled (transposed (find p (joined t)))

  unfoldable pub found_by_id : Uuid → Option Uuid → Action (World Doc W) DomainError (Option Schema)
  unfolding find_row
  found_by_id owner none = pure none
  found_by_id owner (some id) = find_row (λ row. row.1.user_id == owner && row.0.id == id)

  unfoldable pub find_by_id : Uuid → Text → Action (World Doc W) DomainError (Option Schema)
  unfolding found_by_id
  find_by_id owner id = found_by_id owner (o.parse_uuid id)

  unfoldable pub find_by_name : Uuid → Text → Action (World Doc W) DomainError (Option Schema)
  unfolding find_row
  find_by_name owner name =
      find_row (λ row. row.1.user_id == owner && o.lower row.0.name == o.lower name)

  -- `UPDATE … RETURNING`
  unfoldable pub update_schema :
      Uuid → Uuid → SchemaDraft → Action (World Doc W) DomainError (Option (SchemaRow Doc))
  unfolding drawing
  update_schema owner id draft = do
    statement
    settled (map_err storage (o.name_fits draft.name))
    now ← drawn o.now
    write (
        updated owner id (
          set_row draft.name draft.description (o.entities_doc (drawing draft).0)
            (o.relationships_doc (drawing draft).1) now))
    t ← tables_of
    pure (find (is_hit owner id t.user_schemas) t.schemas)

  unfoldable pub replace : Uuid → Text → SchemaDraft → Action (World Doc W) DomainError Schema
  unfolding reserve_name update_schema map_schema transaction
  replace owner id draft = do
    uuid ← settled (ok_or schema_not_found (o.parse_uuid id))
    transaction (do
      statement
      reserve_name owner draft.name (some uuid)
      found ← update_schema owner uuid draft
      row ← settled (ok_or schema_not_found found)
      schema ← settled (map_schema row)
      statement
      pure schema)

  unfoldable pub delete : Uuid → Text → Action (World Doc W) DomainError (Unit {0})
  delete owner id = do
    uuid ← settled (ok_or schema_not_found (o.parse_uuid id))
    statement
    t ← tables_of
    write (deleted owner uuid)
    if any (is_hit owner uuid t.user_schemas) t.schemas then pure tt else fail schema_not_found

  -- `impl SchemaRepository for PgSchemaRepository`
  unfoldable pub pg_schema_repository : SchemaRepository (World Doc W)
  unfolding index create find_by_id find_by_name replace delete
  pg_schema_repository = record {
    index = index;
    create = create;
    find_by_id = find_by_id;
    find_by_name = find_by_name;
    replace = replace;
    delete = delete;
  }
