-- ===== src/Tests/Scans.antt =====
-- Comments that come back from the scanner.
use schema_forge_backend.Base.{ℕ, ◌≡◌, [], ◌∷◌, ◌++◌, Option, none, some, arith}
use schema_forge_backend.Text.{Text, lit}
use schema_forge_backend.Text.Trim.{trim}
use schema_forge_backend.Text.Case.{ascii}
use schema_forge_backend.Text.Escape.{doubled}
use schema_forge_backend.Generator.Comment.{comment_on_table, comment_on_column}
use schema_forge_backend.Exchange.Sql.Token.{word, quoted, text, punct}
use schema_forge_backend.Exchange.Sql.Runs.{quoted_run}
use schema_forge_backend.Exchange.Sql.Runs.Laws.{quoted_run-doubled}
use schema_forge_backend.Exchange.Sql.Scan.{Scanner, scan, loop}
use schema_forge_backend.Exchange.Sql.Scan.Reading.{tokens_of}
use schema_forge_backend.Exchange.Sql.Scan.Progress.{loop_ends}
use schema_forge_backend.Exchange.Sql.Scan.Comments.{scan-comment_on_table, scan-comment_on_column}
use schema_forge_backend.Tests.Sample.{order, order_customer}

-- No number is read: a reader of hints that answers none.
abbrev no_number : Text → Option ℕ
no_number t = none

scan-comment_on_table_example :
    (tokens_of (scan ascii no_number (comment_on_table order)).0
      ≡ (word (lit "comment")
          ∷ word (lit "on")
          ∷ word (lit "table")
          ∷ quoted (trim order.name)
          ∷ word (lit "is")
          ∷ text (trim order.description)
          ∷ [])
        ∷ [])
    × ((scan ascii no_number (comment_on_table order)).1 ≡ [])
scan-comment_on_table_example = scan-comment_on_table ascii no_number order

scan-comment_on_column_example :
    (tokens_of (scan ascii no_number (comment_on_column order order_customer)).0
      ≡ (word (lit "comment")
          ∷ word (lit "on")
          ∷ word (lit "column")
          ∷ quoted (trim order.name)
          ∷ punct b'.'
          ∷ quoted (trim order_customer.name)
          ∷ word (lit "is")
          ∷ text (trim order_customer.description)
          ∷ [])
        ∷ [])
    × ((scan ascii no_number (comment_on_column order order_customer)).1 ≡ [])
scan-comment_on_column_example = scan-comment_on_column ascii no_number order order_customer

quoted_run-doubled_example :
    quoted_run b'\'' (doubled b'\'' (b'i' ∷ b'\'' ∷ b's' ∷ []) ++ b'\'' ∷ b';' ∷ [])
    ≡ (b'i' ∷ b'\'' ∷ b's' ∷ [], some (b';' ∷ []))
quoted_run-doubled_example =
    quoted_run-doubled b'\'' (b'i' ∷ b'\'' ∷ b's' ∷ []) (b';' ∷ []) (omega arith)

-- A scanner at the start of a statement.
abbrev at_start : Scanner
at_start = record {
  rest = b'A' ∷ b';' ∷ [];
  statements = [];
  hints = [];
  tokens = [];
  started_at = b'A' ∷ b';' ∷ [];
  token_at = b'A' ∷ b';' ∷ [];
}

loop_ends_example : (loop ascii no_number 2 at_start).rest ≡ []
loop_ends_example = loop_ends ascii no_number 2 at_start (omega arith)
