-- ===== src/Exchange/Sql/Runs.antt =====
-- The runs of characters that the scanner of sql/scan.rs takes at once. Each function takes the text
-- from the scanner's position on and returns what it read with the text behind it.
pub mod Laws
use schema_forge_backend.Base.{
  ℕ, ◌+◌, ◌-◌, zero, suc, Bool, true, false, not, ◌&&◌, ◌||◌, ◌==◌, nat_eq, list_eq, if◌then◌else◌,
  List, [], ◌∷◌, ◌++◌, Option, none, some, take, drop, length,
}
use mathlib.Core.Option as Options
use schema_forge_backend.Text.{Text}
use schema_forge_backend.Text.Case.{Unicode}

-- `looks_at`
unfoldable pub looks_at : Text → Text → Bool
looks_at [] rest = true
looks_at (c ∷ prefix) [] = false
looks_at (c ∷ prefix) (d ∷ rest) = d == c && looks_at prefix rest

-- `while chars.get(at).is_some_and(p) { at += 1 }`
unfoldable pub span : (ℕ → Bool) → Text → Text × Text
span p [] = ([], [])
span p (c ∷ rest) =
    let (taken, behind) = span p rest in if p c then (c ∷ taken, behind) else ([], c ∷ rest)

-- The text behind a block comment, at nesting depth `depth`.
unfoldable pub behind_comment : ℕ → Text → Text
behind_comment depth [] = []
behind_comment depth (c ∷ []) = []
behind_comment depth (c ∷ (d ∷ rest)) =
    let deeper = behind_comment (depth + 1) rest in
    let closed = if depth == 1 then rest else behind_comment (depth - 1) rest in
    let further = behind_comment depth (d ∷ rest) in
    if c == b'/' && d == b'*' then deeper else if c == b'*' && d == b'/' then closed else further

-- `quoted` and `split_quoted`, behind the opening delimiter: the value, and the text behind the
-- closing delimiter, if there is one.
unfoldable pub quoted_run : ℕ → Text → Text × Option Text
quoted_run delimiter [] = ([], none)
quoted_run delimiter (c ∷ []) = if c == delimiter then ([], some []) else (c ∷ [], none)
quoted_run delimiter (c ∷ (d ∷ rest)) =
    let (doubled, behind) = quoted_run delimiter rest in
    let (value, later) = quoted_run delimiter (d ∷ rest) in
    if c == delimiter
    then if d == delimiter then (delimiter ∷ doubled, behind) else ([], some (d ∷ rest))
    else (c ∷ value, later)

unfoldable pub is_name_start : Unicode → ℕ → Bool
is_name_start unicode c = unicode.is_alphabetic c || c == b'_'

unfoldable pub is_name_char : Unicode → ℕ → Bool
is_name_char unicode c = unicode.is_alphanumeric c || c == b'_' || c == b'$'

-- `dollar_tag`, behind the first dollar sign.
unfoldable pub dollar_tag : Unicode → Text → Option Text
unfolding is_name_char
dollar_tag unicode [] = none
dollar_tag unicode (c ∷ rest) =
    let longer = Options.map (λ tag. c ∷ tag) (dollar_tag unicode rest) in
    if c == b'$' then some [] else if is_name_char unicode c then longer else none

-- The value of a dollar-quoted text, and the text from its closing delimiter on.
unfoldable pub until_delimiter : Text → Text → Text × Text
unfolding looks_at
until_delimiter delimiter [] = ([], [])
until_delimiter delimiter (c ∷ rest) =
    let (value, behind) = until_delimiter delimiter rest in
    if looks_at delimiter (c ∷ rest) then ([], c ∷ rest) else (c ∷ value, behind)
