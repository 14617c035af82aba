-- ===== src/Generator/Layout.antt =====
-- src/module/schema/core/service/generator/layout.rs
-- `round() as i64` of an `f64` is computed from its bits: the nearest integer, halves away from
-- zero, kept within an `i64`, and 0 for a NaN.
use schema_forge_backend.Base.{
  ℕ, ◌+◌, ◌-◌, ◌*◌, ◌/◌, ◌%◌, ◌^◌, Bool, ◌==◌, nat_eq, leb, ltb, min, ◌∷◌, ◌++◌, if◌then◌else◌,
}
use schema_forge_backend.Text.{Text, lit}
use schema_forge_backend.Text.Decimal.{decimal}
use schema_forge_backend.Domain.Entity.{Entity, is_nan}
use schema_forge_backend.Generator.Quote.{quote}

abbrev exponent : ℕ → ℕ
exponent bits = bits / 2 ^ 52 % 2 ^ 11

-- The significand of a normal number; a subnormal one rounds to 0 in any case.
abbrev significand : ℕ → ℕ
significand bits = 2 ^ 52 + bits % 2 ^ 52

abbrev is_negative : ℕ → Bool
is_negative bits = bits / 2 ^ 63 % 2 == 1

-- The magnitude of the nearest integer: the value is `significand * 2 ^ (exponent - 1075)`.
unfoldable pub rounded : ℕ → ℕ
rounded bits =
    if ltb (exponent bits) 1022
    then 0
    else if leb 1075 (exponent bits)
    then significand bits * 2 ^ (exponent bits - 1075)
    else (significand bits + 2 ^ (1074 - exponent bits)) / 2 ^ (1075 - exponent bits)

unfoldable pub rounded_text : ℕ → Text
unfolding is_nan rounded decimal
rounded_text bits =
    if is_nan bits
    then decimal 0
    else if is_negative bits
    then if rounded bits == 0 then decimal 0 else b'-' ∷ decimal (min (rounded bits) (2 ^ 63))
    else decimal (min (rounded bits) (2 ^ 63 - 1))

unfoldable pub position : Entity → Text
unfolding lit quote rounded_text
position e =
    lit "-- @table "
    ++ (quote e.name ++ (b' ' ∷ rounded_text e.position.x ++ (b' ' ∷ rounded_text e.position.y)))
