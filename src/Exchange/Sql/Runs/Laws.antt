-- ===== src/Exchange/Sql/Runs/Laws.antt =====
-- What the runs read: an escaped text is read back whole, and nothing is read twice.
use schema_forge_backend.Base.{
  ℕ, ◌+◌, ◌-◌, ◌≤◌, suc, Bool, true, false, nat_eq, ◌≡◌, ◌≢◌, [], ◌∷◌, ◌++◌, Option, none, some,
  length, arith, All, drop,
}
use schema_forge_backend.Text.{Text}
use schema_forge_backend.Text.Escape.{doubled}
use schema_forge_backend.Exchange.Sql.Runs.{span, behind_comment, quoted_run, until_delimiter}

-- The text does not go on with the delimiter.
abbrev pub StartsOther : ℕ → Text → Type 0
StartsOther delimiter [] = Unit
StartsOther delimiter (c ∷ rest) = c ≢ delimiter

quoted_run_other :
    (delimiter c : ℕ) (rest : Text)
    → c ≢ delimiter
    → quoted_run delimiter (c ∷ rest)
      ≡ (c ∷ (quoted_run delimiter rest).0, (quoted_run delimiter rest).1)
unfolding quoted_run
quoted_run_other delimiter c [] h = ground arith
quoted_run_other delimiter c (d ∷ rest) h = ground arith

-- A text whose delimiters are doubled is read back, up to the delimiter that closes it.
pub quoted_run-doubled :
    (delimiter : ℕ) (value rest : Text)
    → StartsOther delimiter rest
    → quoted_run delimiter (doubled delimiter value ++ delimiter ∷ rest) ≡ (value, some rest)
unfolding quoted_run doubled
quoted_run-doubled delimiter [] [] h = ground arith
quoted_run-doubled delimiter [] (c ∷ rest) h = ground arith
quoted_run-doubled delimiter (c ∷ value) rest h = ground (
  arith,
  quoted_run-doubled delimiter value rest h,
  quoted_run_other delimiter c (doubled delimiter value ++ delimiter ∷ rest),
)

pub span_stops :
    (p : ℕ → Bool) (taken : Text) (c : ℕ) (rest : Text)
    → All (λ d. p d ≡ true) taken
    → p c ≡ false
    → span p (taken ++ c ∷ rest) ≡ (taken, c ∷ rest)
unfolding span
span_stops p [] c rest h stop = ground arith
span_stops p (d ∷ taken) c rest h stop = ground (arith, span_stops p taken c rest h.1 stop)

pub span-length : (p : ℕ → Bool) (s : Text) → length (span p s).1 ≤ length s
unfolding span
span-length p [] = omega arith
span-length p (c ∷ s) = ground (arith, span-length p s)

pub span-length-lt :
    (p : ℕ → Bool) (c : ℕ) (s : Text) → p c ≡ true → length (span p (c ∷ s)).1 ≤ length s
unfolding span
span-length-lt p c s h = ground (arith, span-length p s)

pub behind_comment-length : (depth : ℕ) (s : Text) → length (behind_comment depth s) ≤ length s
unfolding behind_comment
behind_comment-length depth [] = omega arith
behind_comment-length depth (c ∷ []) = omega arith
behind_comment-length depth (c ∷ (d ∷ s)) = ground (
  arith,
  behind_comment-length (depth + 1) s,
  behind_comment-length (depth - 1) s,
  behind_comment-length depth (d ∷ s),
)

pub behind_comment-length_lt :
    (depth c : ℕ) (s : Text) → length (behind_comment depth (c ∷ s)) ≤ length s
unfolding behind_comment
behind_comment-length_lt depth c [] = omega arith
behind_comment-length_lt depth c (d ∷ s) = ground (
  arith,
  behind_comment-length (depth + 1) s,
  behind_comment-length (depth - 1) s,
  behind_comment-length depth (d ∷ s),
)

abbrev pub behind_length : Option Text → ℕ
behind_length none = 0
behind_length (some behind) = length behind

pub quoted_run-length :
    (delimiter : ℕ) (s : Text) → behind_length (quoted_run delimiter s).1 ≤ length s
unfolding quoted_run
quoted_run-length delimiter [] = omega arith
quoted_run-length delimiter (c ∷ []) = ground arith
quoted_run-length delimiter (c ∷ (d ∷ s)) =
    ground (arith, quoted_run-length delimiter s, quoted_run-length delimiter (d ∷ s))

pub until_delimiter-length :
    (delimiter s : Text) → length (until_delimiter delimiter s).1 ≤ length s
unfolding until_delimiter
until_delimiter-length delimiter [] = omega arith
until_delimiter-length delimiter (c ∷ s) = ground (arith, until_delimiter-length delimiter s)

pub drop-length : (n : ℕ) (s : Text) → length (drop n s) ≤ length s
drop-length ℕ.zero s = omega arith
drop-length (suc n) [] = omega arith
drop-length (suc n) (c ∷ s) = omega (arith, drop-length n s)
