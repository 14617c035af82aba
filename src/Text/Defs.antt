-- ===== src/Text/Defs.antt =====
-- Texts, literals, and the operations of `str` and `[String]` that build a text from others.
use Prim.Native.Char.{code}
use schema_forge_backend.Base.{ℕ, String, List, [], ◌∷◌, ◌++◌}

abbrev pub Text : Type 0
Text = List ℕ

-- A literal of the source.
unfoldable pub lit : String → Text
lit String.[] = []
lit (String.◌∷◌ c s) = code c ∷ lit s

-- `[String]::join`
unfoldable pub join : Text → List Text → Text
join separator [] = []
join separator (x ∷ []) = x
join separator (x ∷ (y ∷ xs)) = x ++ (separator ++ join separator (y ∷ xs))

-- `{name}` between two backticks, as the messages write it.
unfoldable pub ticked : Text → Text
ticked name = b'`' ∷ name ++ b'`' ∷ []
