-- ===== src/Text/Case.antt =====
-- Letter case. The ASCII conversions are total functions on code points; what depends on Unicode's
-- tables (`to_lowercase`, `to_uppercase`, `is_alphabetic`, `is_alphanumeric`) is an interface.
use schema_forge_backend.Base.{
  ℕ, ◌+◌, ◌-◌, ◌<◌, Bool, ◌||◌, ◌&&◌, ◌==◌, leb, if◌then◌else◌, map, ◌≡◌, refl, list_eq, nat_eq,
  All, ==_iff, ==_refl, ◌↔◌, true,
}
use schema_forge_backend.Text.Defs.{Text}

unfoldable pub to_ascii_lower : ℕ → ℕ
to_ascii_lower c = if leb b'A' c && leb c b'Z' then c + 32 else c

unfoldable pub to_ascii_upper : ℕ → ℕ
to_ascii_upper c = if leb b'a' c && leb c b'z' then c - 32 else c

-- `str::to_ascii_lowercase`
unfoldable pub to_ascii_lowercase : Text → Text
unfolding to_ascii_lower
to_ascii_lowercase s = map to_ascii_lower s

-- `str::to_ascii_uppercase`
unfoldable pub to_ascii_uppercase : Text → Text
unfolding to_ascii_upper
to_ascii_uppercase s = map to_ascii_upper s

-- `str::eq_ignore_ascii_case`
unfoldable pub eq_ignore_ascii_case : Text → Text → Bool
unfolding to_ascii_lowercase
eq_ignore_ascii_case a b = to_ascii_lowercase a == to_ascii_lowercase b

unfoldable pub is_ascii_digit : ℕ → Bool
is_ascii_digit c = leb b'0' c && leb c b'9'

abbrev pub is_ascii_alphabetic : ℕ → Bool
is_ascii_alphabetic c = (leb b'A' c && leb c b'Z') || (leb b'a' c && leb c b'z')

-- What Rust's standard library answers from Unicode's tables, with its agreement on ASCII.
pub record Unicode : Type 0 where
  pub to_lowercase : Text → Text
  pub to_uppercase : Text → Text
  pub is_alphabetic : ℕ → Bool
  pub is_alphanumeric : ℕ → Bool
  pub lowercase_ascii : (s : Text) → All (λ c. c < 128) s → to_lowercase s ≡ to_ascii_lowercase s
  pub uppercase_ascii : (s : Text) → All (λ c. c < 128) s → to_uppercase s ≡ to_ascii_uppercase s
  pub alphabetic_ascii : (c : ℕ) → c < 128 → is_alphabetic c ≡ is_ascii_alphabetic c
  pub alphanumeric_ascii :
      (c : ℕ) → c < 128 → is_alphanumeric c ≡ (is_ascii_alphabetic c || is_ascii_digit c)
  -- `is_alphanumeric` is `is_alphabetic` or `is_numeric`.
  pub alphabetic_alphanumeric : (c : ℕ) → is_alphabetic c ≡ true → is_alphanumeric c ≡ true

-- The tables cut down to ASCII, which meet the interface.
unfoldable pub ascii : Unicode
unfolding is_ascii_digit
ascii = record {
  to_lowercase = to_ascii_lowercase;
  to_uppercase = to_ascii_uppercase;
  is_alphabetic = is_ascii_alphabetic;
  is_alphanumeric = λ c. is_ascii_alphabetic c || is_ascii_digit c;
  lowercase_ascii = λ s h. refl;
  uppercase_ascii = λ s h. refl;
  alphabetic_ascii = λ c h. refl;
  alphanumeric_ascii = λ c h. refl;
  alphabetic_alphanumeric = λ c h. rw h;
}

pub eq_ignore_ascii_case_iff :
    (a b : Text) → (eq_ignore_ascii_case a b ≡ true) ↔ (to_ascii_lowercase a ≡ to_ascii_lowercase b)
unfolding eq_ignore_ascii_case
eq_ignore_ascii_case_iff a b = ==_iff _ _

pub eq_ignore_ascii_case_refl : (a : Text) → eq_ignore_ascii_case a a ≡ true
unfolding eq_ignore_ascii_case
eq_ignore_ascii_case_refl a = ==_refl (to_ascii_lowercase a)
