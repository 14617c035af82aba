-- ===== src/Errdef/Error.antt =====
-- src/package/errdef.rs: `AppError`, `ValidationError`, `Error`, its constructors and `Display`. What
-- is kept of another library's failure is the text it displays as.
use schema_forge_backend.Base.{ℤ, Bool, false, not, [], ◌++◌, Option, none, some, is_empty}
use schema_forge_backend.Text.{Text, lit}
use schema_forge_backend.Text.Decimal.{decimal_int}
use schema_forge_backend.Errdef.Code.{
  validation_failed, not_found_code, unauthorized_code, bad_request_code, resource_conflict,
  unprocessable_code, forbidden_code, unimplemented_code, unavailable_code, unknown_code,
}
use schema_forge_backend.Errdef.Violations.{Violations, push}

pub record AppError : Type 0 where
  pub code : ℤ
  pub message : Text
  pub cause : Option Text

pub record ValidationError : Type 0 where
  pub message : Text
  pub field_violations : Violations

pub data Error : Type 0 where
  app : AppError → Error
  validating : ValidationError → Error

unfoldable pub new : ℤ → Text → Error
new code message = app (record { code = code; message = message; cause = none })

unfoldable pub not_found : Text → Error
unfolding new
not_found message = new not_found_code message

unfoldable pub unauthorized : Text → Error
unfolding new
unauthorized message = new unauthorized_code message

unfoldable pub bad_request : Text → Error
unfolding new
bad_request message = new bad_request_code message

unfoldable pub conflict : Text → Error
unfolding new
conflict message = new resource_conflict message

unfoldable pub unprocessable : Text → Error
unfolding new
unprocessable message = new unprocessable_code message

unfoldable pub forbidden : Text → Error
unfolding new
forbidden message = new forbidden_code message

unfoldable pub unimplemented : Text → Error
unfolding new
unimplemented message = new unimplemented_code message

unfoldable pub unavailable : Text → Error
unfolding new
unavailable message = new unavailable_code message

unfoldable pub unknown : Text → Error
unfolding lit
unknown cause =
    app (record { code = unknown_code; message = lit "internal server error"; cause = some cause })

unfoldable pub validation : Text → Error
validation message = validating (record { message = message; field_violations = [] })

unfoldable pub with_cause : Error → Text → Error
with_cause (app e) cause = app (record e { cause = some cause })
with_cause (validating e) cause = validating e

unfoldable pub push_violation : Error → Text → Text → Error
push_violation (app e) field message = app e
push_violation (validating e) field message =
    validating (record e { field_violations = push field message e.field_violations })

unfoldable pub add_violation : Error → Text → Text → Error
unfolding push_violation
add_violation e field message = push_violation e field message

unfoldable pub has_violations : Error → Bool
has_violations (app e) = false
has_violations (validating e) = not (is_empty e.field_violations)

unfoldable pub app_code : Error → ℤ
app_code (app e) = e.code
app_code (validating e) = validation_failed

cause_text : Option Text → Text
unfolding lit
cause_text none = []
cause_text (some cause) = lit " (cause: " ++ cause ++ lit ")"

-- `Display` of `Error`, by those of its two parts.
unfoldable pub display : Error → Text
unfolding lit decimal_int cause_text
display (app e) = lit "code " ++ decimal_int e.code ++ lit ": " ++ e.message ++ cause_text e.cause
display (validating e) = lit "code " ++ decimal_int validation_failed ++ lit ": " ++ e.message

-- `From<sqlx::Error>`, `source` being what the failure displays as.
unfoldable pub from_sqlx : Text → Error
unfolding unknown
from_sqlx source = unknown source
