-- ===== src/Verifier.antt =====
-- src/module/schema/core/service/verifier/mod.rs: the checks that a drawn schema goes through, each
-- in the child named for its file.
pub mod Names
pub mod Syntax
pub mod Structure
pub mod References
pub mod Cycles
pub mod Documentation
pub mod WellFormed
pub mod Verdict
pub mod Findings
use schema_forge_backend.Base.{List, [], ◌∷◌, for_each}
use schema_forge_backend.Text.Case.{Unicode}
use schema_forge_backend.Domain.Schema.{Schema}
use schema_forge_backend.Domain.Diagnostic.{Report, empty}
use Syntax.{check_not_empty, check_names, check_type_parameters, check_relationship_ends}
use Structure.{check_duplicate_names, check_primary_keys}
use References.{check_foreign_keys, check_relationships}
use Cycles.{check_cycles}
use Documentation.{check_documentation}

unfoldable pub checks : Unicode → List (Schema → Report → Report)
checks unicode =
    check_not_empty
    ∷ check_names
    ∷ check_type_parameters
    ∷ check_relationship_ends
    ∷ check_duplicate_names unicode
    ∷ check_primary_keys
    ∷ check_foreign_keys
    ∷ check_relationships
    ∷ check_cycles
    ∷ check_documentation
    ∷ []

unfoldable pub verify : Unicode → Schema → Report
unfolding checks
verify unicode s = for_each (checks unicode) (λ check. check s) empty
