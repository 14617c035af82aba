-- ===== src/Exchange/Sql/Scan/Comments.antt =====
-- The comments that the generator writes are read back by the scanner, whatever the names and the
-- descriptions hold.
use schema_forge_backend.Base.{
  ℕ, ◌<◌, true, false, ◌≡◌, refl, List, [], ◌∷◌, ◌++◌, Option, arith, append_assoc, All,
}
use schema_forge_backend.Text.{Text, lit}
use schema_forge_backend.Text.Trim.{trim, is_whitespace}
use schema_forge_backend.Text.Case.{
  Unicode, is_ascii_alphabetic, is_ascii_digit, to_ascii_lowercase,
}
use schema_forge_backend.Text.Escape.{doubled}
use schema_forge_backend.Domain.Attribute.{Attribute}
use schema_forge_backend.Domain.Entity.{Entity}
use schema_forge_backend.Generator.Quote.{quote, literal}
use schema_forge_backend.Generator.Comment.{comment_on_table, comment_on_column}
use schema_forge_backend.Exchange.Sql.Token.{Token, word, quoted, text, punct}
use schema_forge_backend.Exchange.Sql.Runs.{is_name_start, is_name_char}
use schema_forge_backend.Exchange.Sql.Runs.Laws.{StartsOther, span_stops}
use schema_forge_backend.Exchange.Sql.Scan.{Scanner, push, moved, word_token, round, scan}
use schema_forge_backend.Exchange.Sql.Scan.Reading.{
  Shows, Reads, and_then, one_round, tokens_of, scan_of_Reads, quoted_token-Shows, push-Shows,
  moved-Shows, finish-Shows, noted-Shows,
}

abbrev IsKeyword : Text → Type 0
IsKeyword w = All (λ c. is_ascii_alphabetic c ≡ true) w

keyword_ascii : (w : Text) → IsKeyword w → All (λ c. c < 128) w
keyword_ascii [] h = tt
keyword_ascii (c ∷ w) h = (ground arith, keyword_ascii w h.1)

module _ (unicode : Unicode) (parse_f64 : Text → Option ℕ) where
  space_is_no_name : is_name_char unicode b' ' ≡ false
  unfolding is_name_char is_ascii_digit
  space_is_no_name = rw (unicode.alphanumeric_ascii b' ' (omega arith))

  letter_is_name : (c : ℕ) → is_ascii_alphabetic c ≡ true → is_name_char unicode c ≡ true
  unfolding is_name_char
  letter_is_name c h = ground (arith, unicode.alphanumeric_ascii c)

  keyword_is_name : (w : Text) → IsKeyword w → All (λ c. is_name_char unicode c ≡ true) w
  keyword_is_name [] h = tt
  keyword_is_name (c ∷ w) h = (letter_is_name c h.0, keyword_is_name w h.1)

  round_letter :
      (c : ℕ) (behind : Text) (s : Scanner)
      → is_ascii_alphabetic c ≡ true
      → round unicode parse_f64 c behind s ≡ word_token unicode s
  unfolding round is_whitespace is_ascii_digit is_name_start
  round_letter c behind s h = ground (arith, unicode.alphabetic_ascii c)

  round_dot :
      (behind : Text) (s : Scanner)
      → round unicode parse_f64 b'.' behind s ≡ moved behind (push (punct b'.') s)
  unfolding round is_whitespace is_ascii_digit is_name_start
  round_dot behind s = rw (unicode.alphabetic_ascii b'.' (omega arith))

  module _ {read : List (List Token)} {ts : List Token} where
    word_token-Shows :
        (w rest : Text) (s : Scanner)
        → IsKeyword w
        → Shows s (w ++ b' ' ∷ rest) read ts
        → Shows (word_token unicode s) (b' ' ∷ rest) read (ts ++ word (to_ascii_lowercase w) ∷ [])
    unfolding word_token moved
    word_token-Shows w rest s letters h =
        let taken =
          span_stops (is_name_char unicode) w b' ' rest (keyword_is_name w letters)
            space_is_no_name in
        rw (h.left, taken, unicode.lowercase_ascii w (keyword_ascii w letters))
          (push-Shows (word (to_ascii_lowercase w)) _ (moved-Shows (b' ' ∷ rest) s h))

    read_space :
        (rest : Text) (s : Scanner)
        → Shows s (b' ' ∷ rest) read ts
        → Reads unicode parse_f64 s rest read ts
    unfolding round is_whitespace
    read_space rest s h =
        one_round unicode parse_f64 s b' ' rest h.left
          (moved-Shows rest _ (noted-Shows (b' ' ∷ rest) s h))

    -- A keyword and the space behind it.
    read_keyword :
        (c : ℕ) (w rest : Text) (s : Scanner)
        → IsKeyword (c ∷ w)
        → Shows s (c ∷ w ++ b' ' ∷ rest) read ts
        → Reads unicode parse_f64 s
            (b' ' ∷ rest)
            read
            (ts ++ word (to_ascii_lowercase (c ∷ w)) ∷ [])
    read_keyword c w rest s letters h =
        let behind = w ++ b' ' ∷ rest in
        let noted = record s { token_at = c ∷ behind } in
        one_round unicode parse_f64 s c behind h.left (
          rw (round_letter c behind noted letters.0)
            (word_token-Shows (c ∷ w) rest noted letters (noted-Shows (c ∷ behind) s h)))

    read_quote :
        (name rest : Text) (s : Scanner)
        → StartsOther b'"' rest
        → Shows s (b'"' ∷ (doubled b'"' name ++ b'"' ∷ rest)) read ts
        → Reads unicode parse_f64 s rest read (ts ++ quoted name ∷ [])
    unfolding round
    read_quote name rest s other h =
        one_round unicode parse_f64 s b'"' _ h.left
          (quoted_token-Shows b'"' quoted name rest _ other (noted-Shows _ s h))

    read_literal :
        (value rest : Text) (s : Scanner)
        → StartsOther b'\'' rest
        → Shows s (b'\'' ∷ (doubled b'\'' value ++ b'\'' ∷ rest)) read ts
        → Reads unicode parse_f64 s rest read (ts ++ text value ∷ [])
    unfolding round
    read_literal value rest s other h =
        one_round unicode parse_f64 s b'\'' _ h.left
          (quoted_token-Shows b'\'' text value rest _ other (noted-Shows _ s h))

    read_dot :
        (rest : Text) (s : Scanner)
        → Shows s (b'.' ∷ rest) read ts
        → Reads unicode parse_f64 s rest read (ts ++ punct b'.' ∷ [])
    read_dot rest s h =
        let noted = record s { token_at = b'.' ∷ rest } in
        one_round unicode parse_f64 s b'.' rest h.left (
          rw (round_dot rest noted)
            (moved-Shows rest _ (push-Shows (punct b'.') noted (noted-Shows (b'.' ∷ rest) s h))))

  read_end :
      {read : List (List Token)} (t : Token) (ts : List Token) (rest : Text) (s : Scanner)
      → Shows s (b';' ∷ rest) read (t ∷ ts)
      → Reads unicode parse_f64 s rest (read ++ (t ∷ ts) ∷ []) []
  unfolding round
  read_end t ts rest s h =
      one_round unicode parse_f64 s b';' rest h.left
        (finish-Shows _ t ts (moved-Shows rest _ (noted-Shows (b';' ∷ rest) s h)))

-- ` IS '…';`
abbrev is_clause : Text → Text
is_clause value =
    b' ' ∷ (b'I' ∷ (b'S' ∷ (b' ' ∷ (b'\'' ∷ (doubled b'\'' (trim value) ++ b'\'' ∷ (b';' ∷ []))))))

comment_on_table_lem :
    (e : Entity)
    → comment_on_table e
      ≡ lit "COMMENT ON TABLE "
        ++ b'"' ∷ (doubled b'"' (trim e.name) ++ b'"' ∷ is_clause e.description)
unfolding comment_on_table quote literal lit
comment_on_table_lem e = simp append_assoc

comment_on_column_lem :
    (e : Entity) (a : Attribute)
    → comment_on_column e a
      ≡ lit "COMMENT ON COLUMN "
        ++ b'"'
          ∷ (doubled b'"' (trim e.name)
              ++ b'"'
                ∷ (b'.' ∷ (b'"' ∷ (doubled b'"' (trim a.name) ++ b'"' ∷ is_clause a.description))))
unfolding comment_on_column quote literal lit
comment_on_column_lem e a = simp append_assoc

module _ (unicode : Unicode) (parse_f64 : Text → Option ℕ) where
  -- A keyword with the space behind it.
  read_word :
      (c : ℕ) (w rest : Text) {read : List (List Token)} {ts : List Token} (s : Scanner)
      → IsKeyword (c ∷ w)
      → Shows s (c ∷ w ++ b' ' ∷ rest) read ts
      → Reads unicode parse_f64 s rest read (ts ++ word (to_ascii_lowercase (c ∷ w)) ∷ [])
  read_word c w rest s letters h =
      and_then unicode parse_f64 (read_keyword unicode parse_f64 c w rest s letters h)
        λ s' h'. read_space unicode parse_f64 rest s' h'

  read_is_clause :
      (value : Text) (t : Token) (ts : List Token) (s : Scanner)
      → Shows s (is_clause value) [] (t ∷ ts)
      → Reads unicode parse_f64 s []
          ((t ∷ (ts ++ word (to_ascii_lowercase (lit "IS")) ∷ []) ++ text (trim value) ∷ []) ∷ [])
          []
  unfolding lit
  read_is_clause value t ts s h =
      and_then unicode parse_f64 (read_space unicode parse_f64 _ s h) λ s₁ h₁.
        and_then unicode parse_f64 (read_word b'I' (b'S' ∷ []) _ s₁ (refl, (refl, tt)) h₁) λ s₂ h₂.
          and_then unicode parse_f64
            (read_literal unicode parse_f64 (trim value) (b';' ∷ []) s₂ (omega arith) h₂)
            λ s₃ h₃. read_end unicode parse_f64 t _ [] s₃ h₃

  -- `COMMENT ON` and the kind of what is described.
  read_comment_on :
      (c : ℕ) (w rest : Text) (s : Scanner)
      → IsKeyword (c ∷ w)
      → Shows s (lit "COMMENT ON " ++ (c ∷ w ++ b' ' ∷ rest)) [] []
      → Reads unicode parse_f64 s rest [] (
          word (to_ascii_lowercase (lit "COMMENT"))
          ∷ word (to_ascii_lowercase (lit "ON"))
          ∷ word (to_ascii_lowercase (c ∷ w))
          ∷ [])
  unfolding lit
  read_comment_on c w rest s letters h =
      and_then unicode parse_f64
        (read_word b'C' (lit "OMMENT") _ s
          (refl, (refl, (refl, (refl, (refl, (refl, (refl, tt))))))) h)
        λ s₁ h₁.
          and_then unicode parse_f64 (read_word b'O' (lit "N") _ s₁ (refl, (refl, tt)) h₁)
            λ s₂ h₂. read_word c w rest s₂ letters h₂

-- The comment that the generator writes for a table is read back as one statement: its keywords, the
-- table's name and its description, both trimmed, whatever characters they hold.
pub scan-comment_on_table :
    (unicode : Unicode) (parse_f64 : Text → Option ℕ) (e : Entity)
    → (tokens_of (scan unicode parse_f64 (comment_on_table e)).0
        ≡ (word (lit "comment")
            ∷ word (lit "on")
            ∷ word (lit "table")
            ∷ quoted (trim e.name)
            ∷ word (lit "is")
            ∷ text (trim e.description)
            ∷ [])
          ∷ [])
      × ((scan unicode parse_f64 (comment_on_table e)).1 ≡ [])
unfolding lit to_ascii_lowercase
scan-comment_on_table unicode parse_f64 e = rw (comment_on_table_lem e) (
    scan_of_Reads unicode parse_f64 _ _ λ s h.
      and_then unicode parse_f64
        (read_comment_on unicode parse_f64 b'T' (lit "ABLE") _ s
          (refl, (refl, (refl, (refl, (refl, tt))))) h)
        λ s₁ h₁.
          and_then unicode parse_f64
            (read_quote unicode parse_f64 (trim e.name) (is_clause e.description) s₁ (omega arith)
              h₁)
            λ s₂ h₂. read_is_clause unicode parse_f64 e.description _ _ s₂ h₂)

-- So is the comment for a column, with the dot between the two names.
pub scan-comment_on_column :
    (unicode : Unicode) (parse_f64 : Text → Option ℕ) (e : Entity) (a : Attribute)
    → (tokens_of (scan unicode parse_f64 (comment_on_column e a)).0
        ≡ (word (lit "comment")
            ∷ word (lit "on")
            ∷ word (lit "column")
            ∷ quoted (trim e.name)
            ∷ punct b'.'
            ∷ quoted (trim a.name)
            ∷ word (lit "is")
            ∷ text (trim a.description)
            ∷ [])
          ∷ [])
      × ((scan unicode parse_f64 (comment_on_column e a)).1 ≡ [])
unfolding lit to_ascii_lowercase
scan-comment_on_column unicode parse_f64 e a = rw (comment_on_column_lem e a) (
    scan_of_Reads unicode parse_f64 _ _ λ s h.
      and_then unicode parse_f64
        (read_comment_on unicode parse_f64 b'C' (lit "OLUMN") _ s
          (refl, (refl, (refl, (refl, (refl, (refl, tt)))))) h)
        λ s₁ h₁.
          and_then unicode parse_f64
            (read_quote unicode parse_f64 (trim e.name) _ s₁ (omega arith) h₁)
            λ s₂ h₂. and_then unicode parse_f64 (read_dot unicode parse_f64 _ s₂ h₂) λ s₃ h₃.
              and_then unicode parse_f64
                (read_quote unicode parse_f64 (trim a.name) (is_clause a.description) s₃
                  (omega arith) h₃)
                λ s₄ h₄. read_is_clause unicode parse_f64 a.description _ _ s₄ h₄)
