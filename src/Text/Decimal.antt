-- ===== src/Text/Decimal.antt =====
-- `Display` of an unsigned integer, and of a signed one by sign and magnitude.
use schema_forge_backend.Base.{
  ℤ, pos, negsuc, ℕ, ◌+◌, ◌/◌, ◌%◌, zero, suc, ltb, if◌then◌else◌, [], ◌∷◌, ◌++◌,
}
use schema_forge_backend.Text.Defs.{Text}

-- The digits of `n`, the last one last; one unit of fuel for each digit.
unfoldable pub digits_from : ℕ → ℕ → Text
digits_from zero n = []
digits_from (suc fuel) n =
    let more = digits_from fuel (n / 10) ++ (b'0' + n % 10) ∷ [] in
    if ltb n 10 then (b'0' + n) ∷ [] else more

-- A number has no more digits than its value plus one, so the fuel suffices.
unfoldable pub decimal : ℕ → Text
unfolding digits_from
decimal n = digits_from (suc n) n

unfoldable pub decimal_int : ℤ → Text
unfolding decimal
decimal_int (pos n) = decimal n
decimal_int (negsuc n) = b'-' ∷ decimal (n + 1)
