-- ===== src/SchemaService/Service.antt =====
-- src/module/schema/core/service/schema.rs: the operations of `SchemaServiceImpl` but `export` and
-- `import`, with `verify` of the verifier and `compare` of the exchange as they are, and any
-- generators. Log lines are left out.
use schema_forge_backend.Base.{
  ℕ, ltb, length, is_empty, find, if◌then◌else◌, List, [], ◌++◌, Result, ok, err, ok_or, Action,
  pure, settled, failing, ◌>>=◌, ◌>>◌,
}
use schema_forge_backend.Text.{Text, lit, ticked}
use schema_forge_backend.Text.Trim.{trim}
use schema_forge_backend.Text.Case.{Unicode}
use schema_forge_backend.Domain.Schema.{Schema, SchemaDraft, SchemaSummary, draft}
use schema_forge_backend.Domain.Diagnostic.{Report, is_valid}
use schema_forge_backend.Domain.Dialect.{Dialect, as_str, same_dialect}
use schema_forge_backend.Domain.Comparison.{Comparison}
use schema_forge_backend.Verifier.{verify}
use schema_forge_backend.Exchange.Compare.Drafts.{compare as compare_drafts}
use schema_forge_backend.Errdef.Error.{
  Error, not_found, conflict, unknown, unimplemented, validation, push_violation, has_violations,
}
use schema_forge_backend.Pagination.{ListRequest, Data, new as page_of}
use schema_forge_backend.SchemaService.Ports.{
  Uuid, DomainError, schema_not_found, duplicate_schema_name, storage, SchemaRepository, Generator,
  ValidationTarget, stored, drawn, GenerateRequest, CompareRequest, Generated,
}

abbrev pub max_name_length : ℕ
max_name_length = 120

unfoldable pub name_given : SchemaDraft → Error → Error
unfolding trim push_violation lit
name_given d e =
    if is_empty (trim d.name)
    then push_violation e (lit "name") (lit "field is required and cannot be empty")
    else e

unfoldable pub name_short : SchemaDraft → Error → Error
unfolding push_violation lit
name_short d e =
    if ltb max_name_length (length d.name)
    then push_violation e (lit "name") (lit "field must be at most 120 characters")
    else e

unfoldable pub check_draft : SchemaDraft → Result (Unit {0}) Error
unfolding name_given name_short validation has_violations lit
check_draft d =
    let e = name_short d (name_given d (validation (lit "failed payload validation"))) in
    if has_violations e then err e else ok tt

unfoldable pub schema_does_not_exist : Text
unfolding lit
schema_does_not_exist = lit "schema does not exist"

unfoldable pub to_error : DomainError → Error
unfolding not_found conflict unknown schema_does_not_exist lit ticked
to_error schema_not_found = not_found schema_does_not_exist
to_error (duplicate_schema_name name) =
    conflict (lit "a schema named " ++ ticked name ++ lit " already exists")
to_error (storage failure) = unknown (lit "storage failure: " ++ failure)

module _ {S : Type 0} (u : Unicode) (show_f64 : ℕ → Text) (repository : SchemaRepository S)
    (generators : List Generator) where
  unfoldable pub find_by_id : Uuid → Text → Action S Error Schema
  unfolding to_error not_found schema_does_not_exist
  find_by_id caller id = do
    found ← failing to_error (repository.find_by_id caller id)
    settled (ok_or (not_found schema_does_not_exist) found)

  unfoldable pub resolve : Uuid → ValidationTarget → Action S Error Schema
  unfolding find_by_id
  resolve caller (stored id) = find_by_id caller id
  resolve caller (drawn schema) = pure schema

  unfoldable pub generator_for : Dialect → Result Generator Error
  unfolding same_dialect unimplemented lit as_str
  generator_for dialect =
      ok_or (unimplemented (lit "no generator targets " ++ as_str dialect ++ lit " yet"))
        (find (λ generator. same_dialect generator.dialect dialect) generators)

  unfoldable pub index : Uuid → ListRequest → Action S Error (Data SchemaSummary)
  unfolding to_error page_of
  index caller request = do
    listed ← failing to_error (repository.index caller request)
    pure (page_of listed.0 listed.1 request.page request.per_page)

  unfoldable pub create : Uuid → SchemaDraft → Action S Error Schema
  unfolding to_error check_draft
  create caller d = do settled (check_draft d); failing to_error (repository.create caller d)

  unfoldable pub replace : Uuid → Text → SchemaDraft → Action S Error Schema
  unfolding to_error check_draft
  replace caller id d = do
    settled (check_draft d)
    failing to_error (repository.replace caller id d)

  unfoldable pub delete : Uuid → Text → Action S Error (Unit {0})
  unfolding to_error
  delete caller id = failing to_error (repository.delete caller id)

  unfoldable pub validate : Uuid → ValidationTarget → Action S Error Report
  unfolding resolve verify
  validate caller target = do schema ← resolve caller target; pure (verify u schema)

  unfoldable pub scripted : Generator → GenerateRequest → Schema → Generated
  unfolding verify is_valid
  scripted generator request schema =
      let report = verify u schema in
      if is_valid report
      then record { ddl = generator.generate schema request.options; report = report }
      else record { ddl = []; report = report }

  unfoldable pub generate_ddl : Uuid → GenerateRequest → Action S Error Generated
  unfolding generator_for resolve scripted
  generate_ddl caller request = do
    generator ← settled (generator_for request.dialect)
    schema ← resolve caller request.target
    pure (scripted generator request schema)

  unfoldable pub compare : Uuid → CompareRequest → Action S Error Comparison
  unfolding resolve compare_drafts draft
  compare caller request = do
    expected ← resolve caller request.expected
    actual ← resolve caller request.actual
    pure (compare_drafts show_f64 (draft expected) (draft actual) request.include_positions)
