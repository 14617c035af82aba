-- ===== src/Domain/ExchangeFormat.antt =====
-- src/module/schema/core/domain/exchange.rs
use schema_forge_backend.Base.{◌||◌, ◌==◌, nat_eq, list_eq, Option, none, some, if◌then◌else◌}
use schema_forge_backend.Text.{Text, lit}
use schema_forge_backend.Text.Trim.{trim}
use schema_forge_backend.Text.Case.{to_ascii_lowercase}

pub data ExchangeFormat : Type 0 where
  json sql : ExchangeFormat

unfoldable pub as_str : ExchangeFormat → Text
unfolding lit
as_str json = lit "json"
as_str sql = lit "sql"

format_named : Text → Option ExchangeFormat
unfolding lit
format_named v =
    if v == lit "json"
    then some json
    else if v == lit "sql" || v == lit "postgres" || v == lit "postgresql"
    then some sql
    else none

-- `FromStr`: `none` is its `Err`.
unfoldable pub from_str : Text → Option ExchangeFormat
unfolding format_named
from_str value = format_named (to_ascii_lowercase (trim value))
