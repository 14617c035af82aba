-- ===== src/Domain/Diagnostic.antt =====
-- src/module/schema/core/domain/diagnostic.rs
pub mod Code
pub mod Laws
use schema_forge_backend.Base.{
  Bool, true, false, not, ◌==◌, nat_eq, list_eq, List, [], ◌∷◌, ◌++◌, Option, none, some, any,
  filter,
}
use schema_forge_backend.Text.{Text, lit}
use schema_forge_backend.Domain.Entity.{Position}

pub data Severity : Type 0 where
  warning error : Severity

unfoldable pub as_str : Severity → Text
as_str warning = lit "warning"
as_str error = lit "error"

pub record Diagnostic : Type 0 where
  pub code : Text
  pub severity : Severity
  pub message : Text
  pub element_ids : List Text
  pub location : Option Position

-- `Diagnostic::error` and `Diagnostic::warning`
unfoldable pub an_error : Text → Text → Diagnostic
an_error c m = record { code = c; severity = error; message = m; element_ids = []; location = none }

unfoldable pub a_warning : Text → Text → Diagnostic
a_warning c m = record {
  code = c;
  severity = warning;
  message = m;
  element_ids = [];
  location = none;
}

unfoldable pub about : Text → Diagnostic → Diagnostic
about element_id d = record d { element_ids = d.element_ids ++ element_id ∷ [] }

unfoldable pub at : Position → Diagnostic → Diagnostic
at position d = record d { location = some position }

-- `severity == Severity::Error`
abbrev is_error_severity : Severity → Bool
is_error_severity warning = false
is_error_severity error = true

unfoldable pub is_error : Diagnostic → Bool
is_error d = is_error_severity d.severity

pub record Report : Type 0 where
  pub diagnostics : List Diagnostic

-- `Report::default`
unfoldable pub empty : Report
empty = record { diagnostics = [] }

unfoldable pub push : Diagnostic → Report → Report
push d r = record { diagnostics = r.diagnostics ++ d ∷ [] }

unfoldable pub is_valid : Report → Bool
unfolding is_error
is_valid r = not (any is_error r.diagnostics)

unfoldable pub errors : Report → List Diagnostic
unfolding is_error
errors r = filter is_error r.diagnostics

unfoldable pub warnings : Report → List Diagnostic
unfolding is_error
warnings r = filter (λ d. not (is_error d)) r.diagnostics

unfoldable pub has : Report → Text → Bool
has r code = any (λ d. d.code == code) r.diagnostics
