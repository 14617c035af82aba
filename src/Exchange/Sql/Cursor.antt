-- ===== src/Exchange/Sql/Cursor.antt =====
-- src/module/schema/core/service/exchange/sql/cursor.rs
-- A cursor is the tokens that are left. What moves it gives the answer and the cursor after it.
pub mod Laws
use schema_forge_backend.Base.{
  ℕ, ◌+◌, ◌-◌, Bool, true, false, not, ◌&&◌, ◌||◌, ◌==◌, nat_eq, list_eq, if◌then◌else◌, List, [],
  ◌∷◌, ◌++◌, Option, none, some, any, is_empty, drop, length,
}
use schema_forge_backend.Text.{Text, lit}
use schema_forge_backend.Text.Escape.{doubled}
use schema_forge_backend.Exchange.Sql.Token.{
  Token, word, quoted, text, number, punct, is_word, is_punct, name_of,
}

abbrev pub Cursor : Type 0
Cursor = List Token

unfoldable pub done : Cursor → Bool
done c = is_empty c

unfoldable pub peek : Cursor → Option Token
peek [] = none
peek (t ∷ c) = some t

unfoldable pub next : Cursor → Option Token × Cursor
next [] = (none, [])
next (t ∷ c) = (some t, c)

unfoldable pub at_word : Text → Cursor → Bool
unfolding is_word
at_word wanted [] = false
at_word wanted (t ∷ c) = is_word t wanted

unfoldable pub at_punct : ℕ → Cursor → Bool
unfolding is_punct
at_punct wanted [] = false
at_punct wanted (t ∷ c) = is_punct t wanted

unfoldable pub eat_word : Text → Cursor → Bool × Cursor
unfolding at_word
eat_word wanted c = if at_word wanted c then (true, drop 1 c) else (false, c)

at_words : List Text → Cursor → Bool
unfolding is_word
at_words [] c = true
at_words (w ∷ words) [] = false
at_words (w ∷ words) (t ∷ c) = is_word t w && at_words words c

unfoldable pub eat_words : List Text → Cursor → Bool × Cursor
unfolding at_words
eat_words words c = if at_words words c then (true, drop (length words) c) else (false, c)

unfoldable pub eat_punct : ℕ → Cursor → Bool × Cursor
unfolding at_punct
eat_punct wanted c = if at_punct wanted c then (true, drop 1 c) else (false, c)

-- The loop of `qualified_name`, behind a name.
dotted : Text → Cursor → Option Text × Cursor
unfolding is_punct name_of
dotted name [] = (some name, [])
dotted name (dot ∷ []) = if is_punct dot b'.' then (none, []) else (some name, dot ∷ [])
dotted name (dot ∷ (t ∷ c)) =
    let more = λ (part : Text). dotted (name ++ b'.' ∷ part) c in
    if is_punct dot b'.'
    then elim (name_of t) [ none ↦ (none, c) | some part ↦ more part ]
    else (some name, dot ∷ (t ∷ c))

unfoldable pub qualified_name : Cursor → Option Text × Cursor
unfolding dotted name_of
qualified_name [] = (none, [])
qualified_name (t ∷ c) = elim (name_of t) [ none ↦ (none, c) | some name ↦ dotted name c ]

-- The loop of `name_list`.
names_from : List Text → Cursor → Option (List Text) × Cursor
unfolding is_punct name_of
names_from names [] = (none, [])
names_from names (t ∷ []) = (none, [])
names_from names (t ∷ (separator ∷ c)) =
    let more = λ (name : Text). names_from (names ++ name ∷ []) c in
    elim (name_of t) [
      | none ↦ (none, separator ∷ c)
      | some name ↦
          if is_punct separator b','
          then more name
          else if is_punct separator b')'
          then (some (names ++ name ∷ []), c)
          else (none, separator ∷ c)
    ]

unfoldable pub name_list : Cursor → Option (List Text) × Cursor
unfolding names_from is_punct
name_list [] = (none, [])
name_list (t ∷ c) = if is_punct t b'(' then names_from [] c else (none, t ∷ c)

is_one_of : List Text → Token → Bool
is_one_of stop (word found) = any (λ w. w == found) stop
is_one_of stop _ = false

-- The loop of `take_until_separator`.
until_separator : List Text → ℕ → Cursor → List Token × Cursor
unfolding is_punct is_one_of
until_separator stop depth [] = ([], [])
until_separator stop depth (t ∷ c) =
    let opened = until_separator stop (depth + 1) c in
    let closed = until_separator stop (depth - 1) c in
    let level = until_separator stop depth c in
    if is_punct t b'('
    then (t ∷ opened.0, opened.1)
    else if is_punct t b')'
    then if depth == 0 then ([], t ∷ c) else (t ∷ closed.0, closed.1)
    else if depth == 0 && (is_punct t b',' || is_one_of stop t)
    then ([], t ∷ c)
    else (t ∷ level.0, level.1)

unfoldable pub take_until_separator : List Text → Cursor → List Token × Cursor
unfolding until_separator
take_until_separator stop c = until_separator stop 0 c

-- The loop of `skip_balanced`.
skip_from : ℕ → Cursor → Cursor
unfolding is_punct
skip_from depth [] = []
skip_from depth (t ∷ c) =
    let opened = skip_from (depth + 1) c in
    let closed = skip_from (depth - 1) c in
    let level = skip_from depth c in
    if is_punct t b'('
    then opened
    else if is_punct t b')'
    then if depth - 1 == 0 then c else closed
    else level

unfoldable pub skip_balanced : Cursor → Cursor
unfolding skip_from is_punct
skip_balanced [] = []
skip_balanced (t ∷ c) = if is_punct t b'(' then skip_from 1 c else t ∷ c
