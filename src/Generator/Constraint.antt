-- ===== src/Generator/Constraint.antt =====
-- src/module/schema/core/service/generator/constraint.rs
pub mod Laws
use schema_forge_backend.Base.{
  ℕ, zero, suc, Bool, ltb, List, [], ◌∷◌, ◌++◌, flat_map, if◌then◌else◌, Option, none, some,
}
use schema_forge_backend.Text.{Text, lit}
use schema_forge_backend.Text.Trim.{trim}
use schema_forge_backend.Text.Bytes.{len, is_char_boundary, truncate}
use schema_forge_backend.Domain.Attribute.{Attribute, ForeignKeyRef}
use schema_forge_backend.Domain.Entity.{Entity}
use schema_forge_backend.Domain.Schema.{Schema, resolve}
use schema_forge_backend.Generator.Quote.{quote}

abbrev pub max_identifier_bytes : ℕ
max_identifier_bytes = 63

-- The greatest boundary from `at` down, which `(0..=at).rev().find(…)` looks for.
unfoldable pub last_boundary : Text → ℕ → ℕ
unfolding is_char_boundary
last_boundary name zero = 0
last_boundary name (suc at) =
    let below = last_boundary name at in if is_char_boundary name (suc at) then suc at else below

unfoldable pub fitted : Text → Text
unfolding len last_boundary truncate
fitted name =
    if ltb max_identifier_bytes (len name)
    then truncate name (last_boundary name max_identifier_bytes)
    else name

unfoldable pub full_name : Text → Text → Text
unfolding lit
full_name table column = lit "fk_" ++ (trim table ++ b'_' ∷ trim column)

unfoldable pub constraint_name : Text → Text → Text
unfolding full_name fitted
constraint_name table column = fitted (full_name table column)

add_constraint : Entity → Attribute → Option (Entity × Attribute) → List Text
unfolding lit quote constraint_name
add_constraint e a none = []
add_constraint e a (some (target, key)) =
    (lit "ALTER TABLE "
      ++ (quote e.name
          ++ (lit "\n    ADD CONSTRAINT "
              ++ (quote (constraint_name e.name a.name)
                  ++ (lit " FOREIGN KEY ("
                      ++ (quote a.name
                          ++ (lit ") REFERENCES "
                              ++ (quote target.name
                                  ++ (lit " (" ++ (quote key.name ++ lit ");"))))))))))
    ∷ []

constraint_of : Schema → Entity → Attribute → Option ForeignKeyRef → List Text
unfolding add_constraint resolve
constraint_of s e a none = []
constraint_of s e a (some reference) =
    add_constraint e a (resolve s reference.entity_id reference.attribute_id)

unfoldable pub foreign_keys : Schema → List Text
unfolding constraint_of
foreign_keys s =
    flat_map (λ e. flat_map (λ a. constraint_of s e a a.foreign_key) e.attributes) s.entities
