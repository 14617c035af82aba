-- ===== src/Exchange/Sql/Cursor/Laws.antt =====
-- What the cursor reads is what was written: lists of names, dotted names, balanced parentheses.
use schema_forge_backend.Base.{
  map, ℕ, ◌+◌, ◌-◌, zero, suc, Bool, true, not, ◌&&◌, ◌==◌, nat_eq, if◌then◌else◌, List, [], ◌∷◌,
  ◌++◌, ◌≡◌, refl, ap, ◌∙◌, some, append_assoc, arith,
}
use schema_forge_backend.Text.{Text}
use schema_forge_backend.Exchange.Sql.Token.{word, name_of, Token, quoted, punct, is_punct}
use schema_forge_backend.Exchange.Sql.Cursor.{names_from, name_list, skip_from, skip_balanced}

-- A name as it stands in a list: bare or quoted.
pub data Written : Type 0 where
  bare : Text → Written
  between_quotes : Text → Written

abbrev pub token_of : Written → Token
token_of (bare name) = word name
token_of (between_quotes name) = quoted name

abbrev pub spelled : Written → Text
spelled (bare name) = name
spelled (between_quotes name) = name

-- The names with commas between them, and the parenthesis that closes the list.
abbrev pub listed : Written → List Written → List Token → List Token
listed name [] rest = token_of name ∷ (punct b')' ∷ rest)
listed name (other ∷ names) rest = token_of name ∷ (punct b',' ∷ listed other names rest)

-- A written name, a comma or a closing parenthesis, is read in one step.
names_from-last :
    (before : List Text) (name : Written) (rest : List Token)
    → names_from before (token_of name ∷ (punct b')' ∷ rest))
      ≡ (some (before ++ spelled name ∷ []), rest)
unfolding names_from name_of
names_from-last before (bare name) rest = refl
names_from-last before (between_quotes name) rest = refl

names_from-more :
    (before : List Text) (name : Written) (rest : List Token)
    → names_from before (token_of name ∷ (punct b',' ∷ rest))
      ≡ names_from (before ++ spelled name ∷ []) rest
unfolding names_from name_of
names_from-more before (bare name) rest = refl
names_from-more before (between_quotes name) rest = refl

names_from-listed :
    (before : List Text) (name : Written) (names : List Written) (rest : List Token)
    → names_from before (listed name names rest)
      ≡ (some (before ++ map spelled (name ∷ names)), rest)
names_from-listed before name [] rest = names_from-last before name rest
names_from-listed before name (other ∷ names) rest =
    names_from-more before name (listed other names rest)
    ∙ names_from-listed (before ++ spelled name ∷ []) other names rest
    ∙ ap (λ ns. (some ns, rest))
        (append_assoc before (spelled name ∷ []) (map spelled (other ∷ names)))

-- A list of at least one name, each a bare word or quoted, between parentheses and with commas, is
-- read as the names in their order, and the cursor stands behind it.
pub name_list-listed :
    (name : Written) (names : List Written) (rest : List Token)
    → name_list (punct b'(' ∷ listed name names rest) ≡ (some (map spelled (name ∷ names)), rest)
unfolding name_list
name_list-listed name names rest = names_from-listed [] name names rest

-- Every parenthesis that closes has one before it that is open, and `depth` more are closed than
-- opened.
abbrev pub closes : ℕ → List Token → Bool
closes depth [] = depth == 0
closes depth (t ∷ ts) =
    let opened = closes (depth + 1) ts in
    let closed = closes (depth - 1) ts in
    let level = closes depth ts in
    if is_punct t b'('
    then opened
    else if is_punct t b')'
    then not (depth == 0) && closed
    else level

skip_from-closes :
    (depth : ℕ) (inner rest : List Token)
    → closes depth inner ≡ true
    → skip_from (depth + 1) (inner ++ punct b')' ∷ rest) ≡ rest
unfolding skip_from
skip_from-closes depth [] rest h = ground arith
skip_from-closes zero (t ∷ inner) rest h =
    ground (arith, skip_from-closes 1 inner rest, skip_from-closes 0 inner rest)
skip_from-closes (suc depth) (t ∷ inner) rest h = ground (
  arith,
  skip_from-closes (suc depth + 1) inner rest,
  skip_from-closes depth inner rest,
  skip_from-closes (suc depth) inner rest,
)

-- When the tokens inside a pair of parentheses are balanced, skipping the pair stands behind it.
pub skip_balanced-closes :
    (inner rest : List Token)
    → closes 0 inner ≡ true
    → skip_balanced (punct b'(' ∷ inner ++ punct b')' ∷ rest) ≡ rest
unfolding skip_balanced
skip_balanced-closes inner rest h = skip_from-closes 0 inner rest h
