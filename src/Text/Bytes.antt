-- ===== src/Text/Bytes.antt =====
-- Lengths and positions in the UTF-8 of a text: `str::len`, `str::is_char_boundary` and
-- `String::truncate`.
use schema_forge_backend.Base.{
  ℕ, ◌+◌, ◌-◌, Bool, true, false, leb, ltb, if◌then◌else◌, [], ◌∷◌, zero, suc, nat_eq,
}
use schema_forge_backend.Text.Defs.{Text}

-- `char::len_utf8`
unfoldable pub len_utf8 : ℕ → ℕ
len_utf8 c = if ltb c 0x80 then 1 else if ltb c 0x800 then 2 else if ltb c 0x10000 then 3 else 4

unfoldable pub len : Text → ℕ
len [] = 0
len (c ∷ s) = len_utf8 c + len s

-- `str::is_char_boundary`
unfoldable pub is_char_boundary : Text → ℕ → Bool
is_char_boundary s zero = true
is_char_boundary [] (suc at) = false
is_char_boundary (c ∷ s) (suc at) =
    if ltb (suc at) (len_utf8 c) then false else is_char_boundary s (suc at - len_utf8 c)

-- `String::truncate` at a boundary.
unfoldable pub truncate : Text → ℕ → Text
truncate [] at = []
truncate (c ∷ s) at = if leb (len_utf8 c) at then c ∷ truncate s (at - len_utf8 c) else []
