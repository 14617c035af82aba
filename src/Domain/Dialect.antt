-- ===== src/Domain/Dialect.antt =====
-- src/module/schema/core/domain/dialect.rs
use schema_forge_backend.Base.{
  Bool, true, false, ◌||◌, ◌==◌, nat_eq, list_eq, Option, none, some, if◌then◌else◌,
}
use schema_forge_backend.Text.{Text, lit}
use schema_forge_backend.Text.Trim.{trim}
use schema_forge_backend.Text.Case.{to_ascii_lowercase}

pub data Dialect : Type 0 where
  postgres my_sql : Dialect

unfoldable pub as_str : Dialect → Text
unfolding lit
as_str postgres = lit "postgres"
as_str my_sql = lit "mysql"

unfoldable pub supports_comment_on : Dialect → Bool
supports_comment_on postgres = true
supports_comment_on my_sql = false

dialect_named : Text → Option Dialect
unfolding lit
dialect_named v =
    if v == lit "postgres" || v == lit "postgresql"
    then some postgres
    else if v == lit "mysql"
    then some my_sql
    else none

-- `FromStr`: `none` is its `Err`.
unfoldable pub from_str : Text → Option Dialect
unfolding dialect_named
from_str value = dialect_named (to_ascii_lowercase (trim value))

unfoldable pub same_dialect : Dialect → Dialect → Bool
same_dialect postgres postgres = true
same_dialect my_sql my_sql = true
same_dialect _ _ = false
