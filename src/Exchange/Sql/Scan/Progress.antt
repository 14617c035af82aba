-- ===== src/Exchange/Sql/Scan/Progress.antt =====
-- Every round of the scanner's loop reads a character, so the loop ends with the text read.
use schema_forge_backend.Base.{
  ℕ, ◌≤◌, ◌<◌, zero, suc, true, false, ◌||◌, ◌==◌, nat_eq, ◌≡◌, ◌≢◌, refl, [], ◌∷◌, ◌++◌, Option,
  none, some, length, arith, if◌then◌else◌, drop, is_empty, is_some, Bool-cases, inl, inr,
}
use native.Mathlib.Nat.{le_refl}
use schema_forge_backend.Text.{Text}
use schema_forge_backend.Text.Case.{Unicode, is_ascii_digit}
use schema_forge_backend.Exchange.Sql.Token.{Token, quoted, text, punct}
use schema_forge_backend.Exchange.Sql.Hint.{LayoutHint}
use schema_forge_backend.Exchange.Sql.Runs.{
  behind_comment, quoted_run, is_name_start, is_name_char, dollar_tag, until_delimiter,
}
use schema_forge_backend.Exchange.Sql.Runs.Laws.{
  span-length-lt, behind_comment-length_lt, behind_length, quoted_run-length,
  until_delimiter-length, drop-length,
}
use schema_forge_backend.Exchange.Sql.Scan.{
  Scanner, push, finish, moved, add_hint, line_comment, or_end, quoted_token, dollar_quoted,
  number_token, word_token, round, advance, loop,
}

push-rest : (t : Token) (s : Scanner) → (push t s).rest ≡ s.rest
unfolding push
push-rest t s = refl

finish-rest : (s : Scanner) → (finish s).rest ≡ s.rest
unfolding finish
finish-rest s = ground arith

add_hint-rest : (h : Option LayoutHint) (s : Scanner) → (add_hint h s).rest ≡ s.rest
unfolding add_hint
add_hint-rest none s = refl
add_hint-rest (some h) s = refl

or_end-length : (o : Option Text) → length (or_end o) ≡ behind_length o
unfolding or_end
or_end-length none = refl
or_end-length (some t) = refl

eq_nil_of_is_empty : (t : Text) → is_empty t ≡ true → t ≡ []
eq_nil_of_is_empty [] h = refl
eq_nil_of_is_empty (c ∷ t) h = cc

module _ (unicode : Unicode) (parse_f64 : Text → Option ℕ) where
  line_comment-length :
      (c : ℕ) (behind : Text) (s : Scanner)
      → s.rest ≡ c ∷ behind
      → c ≢ b'\n'
      → length (line_comment parse_f64 s).rest ≤ length behind
  unfolding line_comment moved
  line_comment-length c behind s e h =
      let test = λ (d : ℕ). if d == b'\n' then false else true in
      let reads = span-length-lt test c behind (ground arith) in rw (add_hint-rest _ _, e) reads

  word-length :
      (c : ℕ) (behind : Text) (s : Scanner)
      → s.rest ≡ c ∷ behind
      → is_name_start unicode c ≡ true
      → length (word_token unicode s).rest ≤ length behind
  unfolding word_token moved is_name_start is_name_char push
  word-length c behind s e h = rw e (
      span-length-lt (is_name_char unicode) c behind
        (ground (arith, unicode.alphabetic_alphanumeric c)))

  number-length :
      (c : ℕ) (behind : Text) (s : Scanner)
      → s.rest ≡ c ∷ behind
      → is_ascii_digit c ≡ true
      → length (number_token s).rest ≤ length behind
  unfolding number_token moved push
  number-length c behind s e h =
      rw e (span-length-lt (λ d. is_ascii_digit d || d == b'.') c behind (ground arith))

  dollar-length :
      (c : ℕ) (behind : Text) (s : Scanner) (tag : Text)
      → s.rest ≡ c ∷ behind
      → length (dollar_quoted (some tag) s).rest ≤ length behind
  unfolding dollar_quoted moved push
  dollar-length c behind s tag e =
      let delimiter = b'$' ∷ tag ++ b'$' ∷ [] in
      let opened = drop (length (tag ++ b'$' ∷ [])) behind in
      rw e (
        omega (
          arith,
          drop-length (length delimiter) (until_delimiter delimiter opened).1,
          until_delimiter-length delimiter opened,
          drop-length (length (tag ++ b'$' ∷ [])) behind,
        ))

  quoted-length :
      (delimiter : ℕ) (wrap : Text → Token) (behind : Text) (s : Scanner)
      → length (quoted_token delimiter wrap behind s).rest ≤ length behind
  unfolding quoted_token moved push
  quoted-length delimiter wrap behind s =
      omega
        (arith, or_end-length (quoted_run delimiter behind).1, quoted_run-length delimiter behind)

  comment-length :
      (c : ℕ) (behind : Text) (s : Scanner)
      → s.rest ≡ c ∷ behind
      → length (moved (behind_comment 0 s.rest) s).rest ≤ length behind
  unfolding moved
  comment-length c behind s e = rw e (behind_comment-length_lt 0 c behind)

  dollar_tag-length :
      (c : ℕ) (behind : Text) (s : Scanner) (tag : Option Text)
      → s.rest ≡ c ∷ behind
      → is_some tag ≡ true
      → length (dollar_quoted tag s).rest ≤ length behind
  dollar_tag-length c behind s none e h = cc
  dollar_tag-length c behind s (some tag) e h = dollar-length c behind s tag e

  finished-length :
      (behind : Text) (s : Scanner) → length (finish (moved behind s)).rest ≤ length behind
  unfolding moved
  finished-length behind s = rw (finish-rest _) (le_refl _)

  moved-length : (behind : Text) (s : Scanner) → length (moved behind s).rest ≤ length behind
  unfolding moved
  moved-length behind s = le_refl _

  -- A round at a character reads at least that character.
  round-length :
      (c : ℕ) (behind : Text) (s : Scanner)
      → s.rest ≡ c ∷ behind
      → length (round unicode parse_f64 c behind s).rest ≤ length behind
  unfolding round
  round-length c behind s e = ground (
    arith,
    finished-length behind s,
    line_comment-length c behind s e,
    comment-length c behind s e,
    quoted-length b'\'' text behind s,
    quoted-length b'"' quoted behind s,
    dollar_tag-length c behind s (dollar_tag unicode behind) e,
    moved-length behind s,
    number-length c behind s e,
    word-length c behind s e,
    moved-length behind (push (punct c) s),
  )

  pub advance-length :
      (rest : Text) (s : Scanner)
      → s.rest ≡ rest
      → is_empty rest ≡ false
      → length (advance unicode parse_f64 rest s).rest < length rest
  unfolding advance
  advance-length [] s e h = cc
  advance-length (c ∷ behind) s e h =
      omega (arith, round-length c behind (record s { token_at = c ∷ behind }) e)

  -- With as much fuel as there are characters left, the loop reads the whole text.
  pub loop_ends :
      (fuel : ℕ) (s : Scanner) → length s.rest ≤ fuel → (loop unicode parse_f64 fuel s).rest ≡ []
  unfolding loop
  loop_ends zero s h = nothing_left s.rest h
    where
      nothing_left : (t : Text) → length t ≤ 0 → t ≡ []
      nothing_left [] k = refl
      nothing_left (c ∷ t) k = absurd (omega arith)
  loop_ends (suc fuel) s h = elim (Bool-cases (is_empty s.rest)) [
    | inl done ↦ rw done (eq_nil_of_is_empty s.rest done)
    | inr more ↦ rw more (
        loop_ends fuel (advance unicode parse_f64 s.rest s)
          (omega (arith, advance-length s.rest s refl more)))
  ]
