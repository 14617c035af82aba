-- ===== src/Tests/Shelf.antt =====
-- A store that keeps the schemas in a list beside their owners, and the service over it.
use schema_forge_backend.Base.{
  ◌≤◌, ◌≡◌, ◌↔◌, refl, Bool, true, false, ◌&&◌, not, ◌==◌, nat_eq, list_eq, list_beq, if◌then◌else◌,
  is_empty, length, filter, find, map, List, [], ◌∷◌, Option, none, some, Result, ok, err, pos,
}
use schema_forge_backend.Text.{Text, lit}
use schema_forge_backend.Text.Trim.{trim}
use schema_forge_backend.Text.Case.{ascii}
use schema_forge_backend.Domain.Schema.{Schema, SchemaDraft, new, replace_with, summary}
use schema_forge_backend.Domain.Dialect.{postgres}
use schema_forge_backend.Generator.{GenerateOptions, generate}
use schema_forge_backend.Verifier.{verify}
use schema_forge_backend.Verifier.WellFormed.{WellFormed}
use schema_forge_backend.SchemaService.Ports.{
  Uuid, SchemaRepository, DomainError, schema_not_found, stored,
}
use schema_forge_backend.SchemaService.Sample.{sample_schema}
use schema_forge_backend.SchemaService.Service.{check_draft, generate_ddl}
use schema_forge_backend.SchemaService.Laws.{
  check_draft-ok_iff, generate_ddl-script, postgres_generator,
}

abbrev kept : Schema
unfolding new lit
kept = new (lit "s") sample_schema 1

abbrev Shelf : Type 0
Shelf = List (Uuid × Schema)

abbrev owned : Uuid → Shelf → Shelf
owned owner shelf = filter (λ (row : Uuid × Schema). row.0 == owner) shelf

abbrev is_row : Uuid → Text → Uuid × Schema → Bool
is_row owner id row = row.0 == owner && row.1.id == id

abbrev schema_of : Option (Uuid × Schema) → Option Schema
schema_of none = none
schema_of (some row) = some row.1

abbrev replaced : Uuid → Text → SchemaDraft → Uuid × Schema → Uuid × Schema
replaced owner id d row = if is_row owner id row then (row.0, replace_with row.1 d 2) else row

abbrev replace_found :
    Uuid → Text → SchemaDraft → Shelf → Option (Uuid × Schema) → Result Schema DomainError × Shelf
replace_found owner id d shelf none = (err schema_not_found, shelf)
replace_found owner id d shelf (some row) =
    (ok (replace_with row.1 d 2), map (replaced owner id d) shelf)

abbrev shelf_store : SchemaRepository Shelf
shelf_store = record {
  index = λ owner request shelf. (
    ok (
      map (λ (row : Uuid × Schema). summary row.1) (owned owner shelf),
      pos (length (owned owner shelf)),
    ),
    shelf,
  );
  create = λ owner d shelf.
      let schema = new (length shelf ∷ []) d 1 in (ok schema, (owner, schema) ∷ shelf);
  find_by_id = λ owner id shelf. (ok (schema_of (find (is_row owner id) shelf)), shelf);
  find_by_name = λ owner name shelf. (
    ok (schema_of (find (λ (row : Uuid × Schema). row.0 == owner && row.1.name == name) shelf)),
    shelf,
  );
  replace = λ owner id d shelf. replace_found owner id d shelf (find (is_row owner id) shelf);
  delete = λ owner id shelf. (ok tt, filter (λ row. not (is_row owner id row)) shelf);
}

check_draft-ok_iff_example :
    (check_draft sample_schema ≡ ok tt)
    ↔ ((is_empty (trim sample_schema.name) ≡ false) × (length sample_schema.name ≤ 120))
check_draft-ok_iff_example = check_draft-ok_iff sample_schema

abbrev both : GenerateOptions
both = record { include_comments = true; include_positions = true }

generate_ddl-script_example :
    let answer =
      generate_ddl ascii
        (λ x. [])
        shelf_store
        (postgres_generator ascii ∷ [])
        1
        (record { target = stored (lit "s"); dialect = postgres; options = both })
        ((1, kept) ∷ []) in
    (WellFormed ascii kept
      → answer ≡ (
        ok (record { ddl = generate ascii kept both; report = verify ascii kept }),
        (1, kept) ∷ [],
      ))
    × (¬ WellFormed ascii kept
        → answer ≡ (ok (record { ddl = []; report = verify ascii kept }), (1, kept) ∷ []))
unfolding kept list_beq lit new
generate_ddl-script_example =
    generate_ddl-script ascii (λ x. []) shelf_store 1 (lit "s") both kept ((1, kept) ∷ [])
      ((1, kept) ∷ []) refl
