-- ===== src/Text/Trim.antt =====
-- `str::trim`: white space is Unicode's `White_Space`, which is a fixed set of code points.
use schema_forge_backend.Base.{
  ℕ, Bool, ◌||◌, ◌&&◌, ◌==◌, leb, if◌then◌else◌, nat_eq, [], ◌∷◌, reverse,
}
use schema_forge_backend.Text.Defs.{Text}

-- `char::is_whitespace`
unfoldable pub is_whitespace : ℕ → Bool
is_whitespace c =
    (leb 9 c && leb c 13)
    || c == 32
    || c == 0x85
    || c == 0xa0
    || c == 0x1680
    || (leb 0x2000 c && leb c 0x200a)
    || c == 0x2028
    || c == 0x2029
    || c == 0x202f
    || c == 0x205f
    || c == 0x3000

unfoldable pub trim_start : Text → Text
trim_start [] = []
trim_start (c ∷ s) = if is_whitespace c then trim_start s else c ∷ s

unfoldable pub trim_end : Text → Text
unfolding trim_start
trim_end s = reverse (trim_start (reverse s))

unfoldable pub trim : Text → Text
unfolding trim_end
trim s = trim_end (trim_start s)
