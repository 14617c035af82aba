-- ===== src/Text/Escape.antt =====
-- A delimiter doubled inside a text, which is `replace(d, dd)` of the source.
use schema_forge_backend.Base.{ℕ, ◌==◌, nat_eq, if◌then◌else◌, [], ◌∷◌}
use schema_forge_backend.Text.Defs.{Text}

unfoldable pub doubled : ℕ → Text → Text
doubled delimiter [] = []
doubled delimiter (c ∷ s) =
    let rest = doubled delimiter s in
    if c == delimiter then delimiter ∷ (delimiter ∷ rest) else c ∷ rest
