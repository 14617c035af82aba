-- ===== src/Tests/Rows.antt =====
-- A database whose documents are the stored shapes themselves, with a schema of one user's.
use schema_forge_backend.Base.{
  ℕ, ◌+◌, pos, length, List, [], ◌∷◌, none, some, Result, ok, err, ◌≡◌, refl, arith,
}
use schema_forge_backend.Text.{lit}
use schema_forge_backend.Text.Case.{ascii, to_ascii_lowercase}
use schema_forge_backend.Domain.Schema.{Schema, SchemaDraft, new}
use schema_forge_backend.SchemaService.Ports.{DomainError, stored}
use schema_forge_backend.SchemaService.Sample.{sample_schema}
use schema_forge_backend.SchemaService.Isolation.{creating, deleting, replacing, validating, run}
use schema_forge_backend.SchemaService.Postgres.Stored.{
  StoredEntity, StoredRelationship, drawing, collect, restored_entity, restored_relationship,
}
use schema_forge_backend.SchemaService.Postgres.RoundTrip.{drawing-restored}
use schema_forge_backend.SchemaService.Postgres.Rows.{SchemaRow, Tables, Outside, World}
use schema_forge_backend.SchemaService.Postgres.Repository.{create, pg_schema_repository}
use schema_forge_backend.SchemaService.Postgres.Ownership.{IsSound, owned}
use schema_forge_backend.SchemaService.Postgres.Isolation.{run-owned}

abbrev Doc : Type 0
Doc = List StoredEntity × List StoredRelationship

abbrev database : Outside Doc ℕ
database = record {
  uuid_text = λ id. id ∷ [];
  parse_uuid = λ text. elim text [ [] ↦ none | id ∷ _ ↦ some id ];
  entities_doc = λ entities. (entities, []);
  relationships_doc = λ relationships. ([], relationships);
  read_entities = λ doc. ok doc.0;
  read_relationships = λ doc. ok doc.1;
  jsonb_array_length = λ doc. pos (length doc.0 + length doc.1);
  lower = to_ascii_lowercase;
  name_fits = λ name. ok tt;
  taken_text = [];
  range_text = [];
  new_uuid = λ w. (w, w + 1);
  now = λ w. (w, w);
  statement = λ w. (ok tt, w);
}

abbrev kept_row : SchemaRow Doc
unfolding drawing
kept_row = record {
  id = 1;
  name = lit "Kept";
  description = [];
  entities = ((drawing sample_schema).0, []);
  relationships = ([], (drawing sample_schema).1);
  created_at = 1;
  updated_at = 1;
}

-- The schema 1 is of user 7.
abbrev one_kept : Tables Doc
one_kept = record {
  schemas = kept_row ∷ [];
  user_schemas = record { user_id = 7; schema_id = 1; created_at = 1 } ∷ [];
}

one_kept-IsSound : IsSound one_kept
unfolding kept_row
one_kept-IsSound = record { single = (tt, tt); keyed = (tt, tt); refers = (refl, tt) }

run-owned_example :
    owned 7
      (run ascii
        (λ x. [])
        (pg_schema_repository database)
        []
        ((2, creating sample_schema)
          ∷ (3, replacing (1 ∷ []) sample_schema)
          ∷ (3, deleting (1 ∷ []))
          ∷ (2, validating (stored (1 ∷ [])))
          ∷ [])
        (one_kept, 5)).0
    ≡ owned 7 one_kept
run-owned_example =
    run-owned ascii (λ x. []) database [] 7
      ((2, creating sample_schema)
        ∷ (3, replacing (1 ∷ []) sample_schema)
        ∷ (3, deleting (1 ∷ []))
        ∷ (2, validating (stored (1 ∷ [])))
        ∷ [])
      one_kept 5 one_kept-IsSound (ground arith, (ground arith, (ground arith, (ground arith, tt))))

drawing-restored_example :
    (collect restored_entity (drawing sample_schema).0 ≡ ok sample_schema.entities)
    × (collect restored_relationship (drawing sample_schema).1 ≡ ok sample_schema.relationships)
drawing-restored_example = drawing-restored sample_schema

-- A draft with no table.
abbrev bare_draft : SchemaDraft
unfolding lit
bare_draft = record { name = lit "Bare"; description = []; entities = []; relationships = [] }

abbrev answer : Result Schema DomainError → Schema
answer (ok schema) = schema
answer (err e) = new [] bare_draft 0

abbrev after_creation : Result Schema DomainError × World Doc ℕ
after_creation = create database 2 bare_draft (one_kept, 5)
