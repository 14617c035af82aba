-- ===== src/Exchange/Sql/Scan.antt =====
-- The scanner of src/module/schema/core/service/exchange/sql/scan.rs. A position in the source is
-- the text from there on, so `at`, `started_at` and `token_at` are texts. The loop of `run` takes
-- fuel: each round reads at least one character, so the length of the text is enough.
pub mod Progress
pub mod Reading
pub mod Comments
use schema_forge_backend.Base.{
  ℕ, ◌+◌, ◌-◌, zero, suc, Bool, ◌==◌, nat_eq, ◌&&◌, ◌||◌, if◌then◌else◌, List, [], ◌∷◌, ◌++◌,
  Option, none, some, take, drop, length, is_empty, is_some,
}
use schema_forge_backend.Text.{Text, lit}
use schema_forge_backend.Text.Trim.{trim, is_whitespace}
use schema_forge_backend.Text.Case.{Unicode, is_ascii_digit}
use schema_forge_backend.Exchange.Sql.Token.{Token, word, quoted, text, number, punct}
use schema_forge_backend.Exchange.Sql.Hint.{LayoutHint, layout_hint}
use schema_forge_backend.Exchange.Sql.Runs.{
  looks_at, span, behind_comment, quoted_run, is_name_start, is_name_char, dollar_tag,
  until_delimiter,
}

pub record Statement : Type 0 where
  pub tokens : List Token
  pub source : Text

pub record Scanner : Type 0 where
  pub rest : Text
  pub statements : List Statement
  pub hints : List LayoutHint
  pub tokens : List Token
  pub started_at : Text
  pub token_at : Text

-- `Scanner::new`: all positions are 0.
unfoldable pub new : Text → Scanner
new source = record {
  rest = source;
  statements = [];
  hints = [];
  tokens = [];
  started_at = source;
  token_at = source;
}

-- The text from one position up to a later one.
unfoldable pub slice : (from to : Text) → Text
slice from to = take (length from - length to) from

unfoldable pub push : Token → Scanner → Scanner
push token s = record s {
  started_at = if is_empty s.tokens then s.token_at else s.started_at;
  tokens = s.tokens ++ token ∷ [];
}

unfoldable pub finish : Scanner → Scanner
unfolding slice
finish s = if is_empty s.tokens then record s { started_at = s.rest } else record s {
  statements =
      s.statements ++ record { tokens = s.tokens; source = trim (slice s.started_at s.rest) } ∷ [];
  tokens = [];
  started_at = s.rest;
}

-- The scanner moved to a later position.
unfoldable pub moved : Text → Scanner → Scanner
moved rest s = record s { rest = rest }

add_hint : Option LayoutHint → Scanner → Scanner
add_hint none s = s
add_hint (some hint) s = record s {
  hints =
      s.hints
      ++ (if is_empty s.tokens then record hint { above = some (length s.statements) } else hint)
        ∷ [];
}

unfoldable pub line_comment : (Text → Option ℕ) → Scanner → Scanner
unfolding add_hint
line_comment parse_f64 s =
    let (line, behind) = span (λ c. if c == b'\n' then Bool.false else Bool.true) s.rest in
    add_hint (layout_hint parse_f64 line) (moved behind s)

or_end : Option Text → Text
or_end none = []
or_end (some behind) = behind

unfoldable pub quoted_token : ℕ → (Text → Token) → Text → Scanner → Scanner
unfolding or_end
quoted_token delimiter wrap opened s =
    let (value, behind) = quoted_run delimiter opened in push (wrap value) (moved (or_end behind) s)

unfoldable pub dollar_quoted : Option Text → Scanner → Scanner
dollar_quoted none s = s
dollar_quoted (some tag) s =
    let delimiter = b'$' ∷ tag ++ b'$' ∷ [] in
    let (value, behind) = until_delimiter delimiter (drop (length delimiter) s.rest) in
    push (text value) (moved (drop (length delimiter) behind) s)

unfoldable pub number_token : Scanner → Scanner
number_token s =
    let (value, behind) = span (λ c. is_ascii_digit c || c == b'.') s.rest in
    push (number value) (moved behind s)

unfoldable pub word_token : Unicode → Scanner → Scanner
word_token unicode s =
    let (value, behind) = span (is_name_char unicode) s.rest in
    push (word (unicode.to_lowercase value)) (moved behind s)

-- One round of the loop, at the character `c` with the text `behind` it.
unfoldable pub round : Unicode → (Text → Option ℕ) → ℕ → Text → Scanner → Scanner
unfolding lit
round unicode parse_f64 c behind s =
    if c == b';'
    then finish (moved behind s)
    else if c == b'-' && looks_at (lit "--") s.rest
    then line_comment parse_f64 s
    else if c == b'/' && looks_at (lit "/*") s.rest
    then moved (behind_comment 0 s.rest) s
    else if c == b'\''
    then quoted_token b'\'' text behind s
    else if c == b'"'
    then quoted_token b'"' quoted behind s
    else if c == b'$' && is_some (dollar_tag unicode behind)
    then dollar_quoted (dollar_tag unicode behind) s
    else if is_whitespace c
    then moved behind s
    else if is_ascii_digit c
    then number_token s
    else if is_name_start unicode c
    then word_token unicode s
    else moved behind (push (punct c) s)

-- The body of the loop, which notes where the token starts.
unfoldable pub advance : Unicode → (Text → Option ℕ) → Text → Scanner → Scanner
advance unicode parse_f64 [] s = s
advance unicode parse_f64 (c ∷ behind) s =
    round unicode parse_f64 c behind (record s { token_at = c ∷ behind })

unfoldable pub loop : Unicode → (Text → Option ℕ) → ℕ → Scanner → Scanner
loop unicode parse_f64 zero s = s
loop unicode parse_f64 (suc fuel) s =
    let later = loop unicode parse_f64 fuel (advance unicode parse_f64 s.rest s) in
    if is_empty s.rest then s else later

unfoldable pub scan : Unicode → (Text → Option ℕ) → Text → List Statement × List LayoutHint
unfolding loop advance round line_comment quoted_token dollar_quoted number_token word_token push
    finish moved new
scan unicode parse_f64 source =
    let s = finish (loop unicode parse_f64 (length source) (new source)) in (s.statements, s.hints)
