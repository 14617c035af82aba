-- ===== src/Tests/Cursors.antt =====
-- Lists of names and pairs of parentheses that the cursor reads.
use schema_forge_backend.Base.{true, ◌≡◌, refl, List, [], ◌∷◌, ◌++◌, some}
use schema_forge_backend.Text.{lit}
use schema_forge_backend.Exchange.Sql.Token.{Token, word, punct, is_punct}
use schema_forge_backend.Exchange.Sql.Cursor.{name_list, skip_balanced}
use schema_forge_backend.Exchange.Sql.Cursor.Laws.{
  bare, between_quotes, listed, closes, name_list-listed, skip_balanced-closes,
}

name_list-listed_example :
    name_list
      (punct b'(' ∷ listed (bare (lit "id")) (between_quotes (lit "email") ∷ []) (punct b';' ∷ []))
    ≡ (some (lit "id" ∷ lit "email" ∷ []), punct b';' ∷ [])
name_list-listed_example =
    name_list-listed (bare (lit "id")) (between_quotes (lit "email") ∷ []) (punct b';' ∷ [])

-- `lower(email)`
abbrev call : List Token
unfolding lit
call = word (lit "lower") ∷ punct b'(' ∷ word (lit "email") ∷ punct b')' ∷ []

call-closes : closes 0 call ≡ true
unfolding is_punct call
call-closes = refl

skip_balanced-closes_example :
    skip_balanced (punct b'(' ∷ call ++ punct b')' ∷ punct b';' ∷ []) ≡ punct b';' ∷ []
skip_balanced-closes_example = skip_balanced-closes call (punct b';' ∷ []) call-closes
