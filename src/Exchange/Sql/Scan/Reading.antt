-- ===== src/Exchange/Sql/Scan/Reading.antt =====
-- What the scanner reads, token by token, as a relation between what it shows before and after.
use schema_forge_backend.Base.{
  ℕ, ◌≤◌, zero, suc, false, ◌≡◌, refl, sym, subst, List, [], ◌∷◌, ◌++◌, map, Option, length, arith,
  is_empty,
}
use native.Mathlib.Nat.{le_refl}
use mathlib.Core.List.{map-append}
use schema_forge_backend.Text.{Text}
use schema_forge_backend.Text.Case.{Unicode}
use schema_forge_backend.Text.Escape.{doubled}
use schema_forge_backend.Exchange.Sql.Token.{Token}
use schema_forge_backend.Exchange.Sql.Runs.Laws.{StartsOther, quoted_run-doubled}
use schema_forge_backend.Exchange.Sql.Scan.{
  Statement, Scanner, new, push, finish, moved, quoted_token, or_end, round, advance, loop, scan,
}
use schema_forge_backend.Exchange.Sql.Scan.Progress.{advance-length}

abbrev pub tokens_of : List Statement → List (List Token)
tokens_of = map (λ statement. statement.tokens)

-- The text left, the tokens of the statements read, and those of the statement that is open.
pub record Shows (s : Scanner) (rest : Text) (read : List (List Token)) (open_tokens : List Token)
    : Type 0 where
  pub left : s.rest ≡ rest
  pub closed : tokens_of s.statements ≡ read
  pub opened : s.tokens ≡ open_tokens
  pub no_hint : s.hints ≡ []

finish_idle :
    (s : Scanner)
    → s.tokens ≡ []
    → ((finish s).statements ≡ s.statements) × ((finish s).hints ≡ s.hints)
unfolding finish
finish_idle s h = ground arith

module _ (unicode : Unicode) (parse_f64 : Text → Option ℕ) where
  -- Some rounds of the loop.
  pub data Rounds : Scanner → Scanner → Type 0 where
    stop : {s : Scanner} → Rounds s s
    more :
        {s s' : Scanner}
        → is_empty s.rest ≡ false
        → Rounds (advance unicode parse_f64 s.rest s) s'
        → Rounds s s'

  Rounds-trans : {s t u : Scanner} → Rounds s t → Rounds t u → Rounds s u
  Rounds-trans stop r = r
  Rounds-trans (more h q) r = more h (Rounds-trans q r)

  abbrev pub Reads : Scanner → Text → List (List Token) → List Token → Type 0
  Reads s rest read open_tokens = (s' : Scanner) × Rounds s s' × Shows s' rest read open_tokens

  pub and_then :
      {s : Scanner} {rest rest' : Text} {read read' : List (List Token)} {ts ts' : List Token}
      → Reads s rest read ts
      → ((s' : Scanner) → Shows s' rest read ts → Reads s' rest' read' ts')
      → Reads s rest' read' ts'
  and_then (s', r, h) next = let (s'', r', h') = next s' h in (s'', Rounds-trans r r', h')

  pub one_round :
      (s : Scanner) (c : ℕ) (behind : Text) {rest : Text} {read : List (List Token)}
      {ts : List Token}
      → s.rest ≡ c ∷ behind
      → Shows (round unicode parse_f64 c behind (record s { token_at = c ∷ behind })) rest read ts
      → Reads s rest read ts
  unfolding advance
  one_round s c behind {rest} {read} {ts} e h = (
    advance unicode parse_f64 s.rest s,
    more (rw e) stop,
    subst (λ t. Shows (advance unicode parse_f64 t s) rest read ts) (sym e) h,
  )

  -- A loop with enough fuel makes all the rounds.
  loop-Rounds :
      {s s' : Scanner}
      → Rounds s s'
      → s'.rest ≡ []
      → (fuel : ℕ) → length s.rest ≤ fuel
      → loop unicode parse_f64 fuel s ≡ s'
  unfolding loop
  loop-Rounds stop e zero h = refl
  loop-Rounds stop e (suc fuel) h = rw e
  loop-Rounds (more {s} ne r) e zero h =
      absurd (omega (arith, advance-length unicode parse_f64 s.rest s refl ne))
  loop-Rounds (more {s} ne r) e (suc fuel) h =
      rw ne
        (loop-Rounds r e fuel (omega (arith, advance-length unicode parse_f64 s.rest s refl ne)))

  -- What the scanner reads of a whole text, when its rounds lead to the text's end with no statement
  -- open.
  pub scan_of_Reads :
      (source : Text) (read : List (List Token))
      → ((s : Scanner) → Shows s source [] [] → Reads s [] read [])
      → (tokens_of (scan unicode parse_f64 source).0 ≡ read)
        × ((scan unicode parse_f64 source).1 ≡ [])
  unfolding scan new
  scan_of_Reads source read h =
      let (s', rounds, shows) =
        h (new source) (record { left = refl; closed = refl; opened = refl; no_hint = refl }) in
      let ended = loop-Rounds rounds shows.left (length source) (le_refl _) in
      let idle = finish_idle s' shows.opened in
      (rw (ended, idle.0) shows.closed, rw (ended, idle.1) shows.no_hint)

-- The delimiter opens, the doubled value is read back, and the delimiter closes.
pub quoted_token-Shows :
    (delimiter : ℕ) (wrap : Text → Token) (value rest : Text) (s : Scanner)
    {read : List (List Token)} {ts : List Token} {before : Text}
    → StartsOther delimiter rest
    → Shows s before read ts
    → Shows
        (quoted_token delimiter wrap (doubled delimiter value ++ delimiter ∷ rest) s)
        rest
        read
        (ts ++ wrap value ∷ [])
unfolding quoted_token push moved or_end
quoted_token-Shows delimiter wrap value rest s other h =
    let run = quoted_run-doubled delimiter value rest other in
    record { left = rw run; closed = h.closed; opened = rw (run, h.opened); no_hint = h.no_hint }

pub push-Shows :
    (token : Token) (s : Scanner) {rest : Text} {read : List (List Token)} {ts : List Token}
    → Shows s rest read ts
    → Shows (push token s) rest read (ts ++ token ∷ [])
unfolding push
push-Shows token s h = record {
  left = h.left;
  closed = h.closed;
  opened = rw h.opened;
  no_hint = h.no_hint;
}

pub moved-Shows :
    (rest : Text) (s : Scanner) {before : Text} {read : List (List Token)} {ts : List Token}
    → Shows s before read ts
    → Shows (moved rest s) rest read ts
unfolding moved
moved-Shows rest s h = record {
  left = refl;
  closed = h.closed;
  opened = h.opened;
  no_hint = h.no_hint;
}

-- The end of a statement that holds a token.
pub finish-Shows :
    (s : Scanner) {rest : Text} {read : List (List Token)} (t : Token) (ts : List Token)
    → Shows s rest read (t ∷ ts)
    → Shows (finish s) rest (read ++ (t ∷ ts) ∷ []) []
unfolding finish
finish-Shows s t ts h =
    let some_token : is_empty s.tokens ≡ false = rw h.opened in
    record {
      left = rw some_token h.left;
      closed = rw some_token (
          rw (
            map-append (λ (statement : Statement). statement.tokens) s.statements,
            h.closed,
            h.opened,
          ));
      opened = rw some_token;
      no_hint = rw some_token h.no_hint;
    }

-- The position noted for a token is not shown.
pub noted-Shows :
    (at : Text) (s : Scanner) {rest : Text} {read : List (List Token)} {ts : List Token}
    → Shows s rest read ts
    → Shows (record s { token_at = at }) rest read ts
noted-Shows at s h = record {
  left = h.left;
  closed = h.closed;
  opened = h.opened;
  no_hint = h.no_hint;
}
