-- ===== src/SchemaService/Laws.antt =====
-- Which drafts the service takes, and when it writes a script.
use schema_forge_backend.Base.{
  ℕ, ◌≤◌, ◌≡◌, ◌↔◌, false, is_empty, length, [], ◌∷◌, some, ok, pure, settled, failing, ◌>>=◌,
  arith, Bool-cases, inl, inr,
}
use schema_forge_backend.Text.{Text}
use schema_forge_backend.Text.Trim.{trim}
use schema_forge_backend.Text.Case.{Unicode}
use schema_forge_backend.Domain.Schema.{Schema, SchemaDraft}
use schema_forge_backend.Domain.Diagnostic.{is_valid}
use schema_forge_backend.Domain.Dialect.{postgres, same_dialect}
use schema_forge_backend.Generator.{GenerateOptions, generate}
use schema_forge_backend.Verifier.{verify}
use schema_forge_backend.Verifier.WellFormed.{WellFormed}
use schema_forge_backend.Verifier.Verdict.{verify-is_valid_iff}
use schema_forge_backend.Errdef.Violations.{push}
use schema_forge_backend.Errdef.Error.{validation, push_violation, has_violations}
use schema_forge_backend.SchemaService.Ports.{Uuid, SchemaRepository, Generator, stored}
use schema_forge_backend.SchemaService.Service.{
  check_draft, name_given, name_short, generate_ddl, generator_for, resolve, find_by_id, scripted,
}

-- A draft is taken exactly when its name is not blank and is at most 120 characters long.
pub check_draft-ok_iff :
    (d : SchemaDraft)
    → (check_draft d ≡ ok tt) ↔ ((is_empty (trim d.name) ≡ false) × (length d.name ≤ 120))
unfolding check_draft name_given name_short validation push_violation has_violations push
check_draft-ok_iff d = ground arith

-- The generator that the service is given for PostgreSQL.
abbrev pub postgres_generator : Unicode → Generator
postgres_generator u = record { dialect = postgres; generate = generate u }

module _ {S : Type 0} (u : Unicode) (show_f64 : ℕ → Text) (repository : SchemaRepository S) where
  -- For a schema that the store finds for the caller, the answer has the generator's script when the
  -- schema is well formed, and no script when it is not; either way it has the verifier's report.
  pub generate_ddl-script :
      (caller : Uuid) (id : Text) (options : GenerateOptions) (schema : Schema) (s s' : S)
      → repository.find_by_id caller id s ≡ (ok (some schema), s')
      → let answer =
          generate_ddl u show_f64 repository
            (postgres_generator u ∷ [])
            caller
            (record { target = stored id; dialect = postgres; options = options })
            s in
        (WellFormed u schema
          → answer
            ≡ (ok (record { ddl = generate u schema options; report = verify u schema }), s'))
        × (¬ WellFormed u schema
            → answer ≡ (ok (record { ddl = []; report = verify u schema }), s'))
  unfolding generate_ddl generator_for resolve find_by_id scripted same_dialect settled failing pure
      ◌>>=◌
  generate_ddl-script caller id options schema s s' found =
      (λ sound. rw (found, valid sound), λ broken. rw (found, invalid broken))
    where
      valid :
          WellFormed u schema
          → scripted u show_f64 repository
              (postgres_generator u ∷ [])
              (postgres_generator u)
              (record { target = stored id; dialect = postgres; options = options })
              schema
            ≡ record { ddl = generate u schema options; report = verify u schema }
      valid sound = rw ((verify-is_valid_iff u schema).1 sound)

      invalid :
          ¬ WellFormed u schema
          → scripted u show_f64 repository
              (postgres_generator u ∷ [])
              (postgres_generator u)
              (record { target = stored id; dialect = postgres; options = options })
              schema
            ≡ record { ddl = []; report = verify u schema }
      invalid broken = elim (Bool-cases (is_valid (verify u schema))) [
        | inl clean ↦ absurd (broken ((verify-is_valid_iff u schema).0 clean))
        | inr faulty ↦ rw faulty
      ]
