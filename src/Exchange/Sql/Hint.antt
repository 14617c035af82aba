-- ===== src/Exchange/Sql/Hint.antt =====
-- The layout lines of sql/scan.rs, `-- @table "users" 120 340`. Reading an `f64` is Rust's own
-- `str::parse`, which is a parameter.
use schema_forge_backend.Base.{
  ℕ, not, ◌==◌, nat_eq, if◌then◌else◌, [], ◌∷◌, Option, none, some, drop, length,
}
use schema_forge_backend.Text.{Text, lit}
use schema_forge_backend.Text.Trim.{trim, trim_start, is_whitespace}
use schema_forge_backend.Exchange.Sql.Runs.{looks_at, span, quoted_run}

pub record LayoutHint : Type 0 where
  pub table : Text
  pub x : ℕ
  pub y : ℕ
  pub above : Option ℕ

infixl 5 ◌>>=◌
abbrev ◌>>=◌ : {A B : Type 0} → Option A → (A → Option B) → Option B
none >>= k = none
some a >>= k = k a

unfoldable pub strip_prefix : Text → Text → Option Text
unfolding looks_at
strip_prefix prefix s = if looks_at prefix s then some (drop (length prefix) s) else none

-- The table's name and the text behind it: quoted, or up to the first white space.
hint_name : Option Text → Text → Option (Text × Text)
unfolding quoted_run span
hint_name (some opened) rest =
    let (name, behind) = quoted_run b'"' opened in do later ← behind; some (name, later)
hint_name none rest =
    let (name, behind) = span (λ c. not (is_whitespace c)) rest in
    elim behind [ [] ↦ none | c ∷ later ↦ some (name, c ∷ later) ]

-- `split_whitespace().next()`, with the text behind it.
next_word : Text → Option (Text × Text)
unfolding span trim_start
next_word s =
    let (found, behind) = span (λ c. not (is_whitespace c)) (trim_start s) in
    elim found [ [] ↦ none | c ∷ more ↦ some (c ∷ more, behind) ]

unfoldable pub layout_hint : (Text → Option ℕ) → Text → Option LayoutHint
unfolding lit span trim strip_prefix hint_name next_word
layout_hint parse_f64 line = do
  rest ← strip_prefix (lit "@table") (trim (span (λ c. c == b'-') line).1)
  found ← hint_name (strip_prefix (lit "\"") (trim rest)) (trim rest)
  first ← next_word found.1
  x ← parse_f64 first.0
  second ← next_word first.1
  y ← parse_f64 second.0
  some (record { table = found.0; x = x; y = y; above = none })
