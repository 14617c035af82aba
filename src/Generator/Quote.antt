-- ===== src/Generator/Quote.antt =====
-- `quote` of src/module/schema/core/service/generator/mod.rs and `literal` of its comment.rs.
use schema_forge_backend.Base.{[], ◌∷◌, ◌++◌}
use schema_forge_backend.Text.{Text}
use schema_forge_backend.Text.Trim.{trim}
use schema_forge_backend.Text.Escape.{doubled}

unfoldable pub quote : Text → Text
unfolding doubled
quote name = b'"' ∷ doubled b'"' (trim name) ++ b'"' ∷ []

unfoldable pub literal : Text → Text
unfolding doubled
literal value = b'\'' ∷ doubled b'\'' (trim value) ++ b'\'' ∷ []
