-- ===== src/Exchange/Sql/Token.antt =====
-- The tokens of src/module/schema/core/service/exchange/sql/scan.rs.
use schema_forge_backend.Base.{ℕ, Bool, false, ◌==◌, nat_eq, list_eq, Option, none, some}
use schema_forge_backend.Text.{Text}

pub data Token : Type 0 where
  word quoted text number : Text → Token
  punct : ℕ → Token

unfoldable pub is_word : Token → Text → Bool
is_word (word found) wanted = found == wanted
is_word _ wanted = false

unfoldable pub is_punct : Token → ℕ → Bool
is_punct (punct found) wanted = found == wanted
is_punct _ wanted = false

-- `Token::name`
unfoldable pub name_of : Token → Option Text
name_of (word found) = some found
name_of (quoted found) = some found
name_of _ = none
