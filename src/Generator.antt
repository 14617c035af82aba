-- ===== src/Generator.antt =====
-- src/module/schema/core/service/generator: the DDL of a schema in PostgreSQL's dialect.
pub mod Quote
pub mod Table
pub mod Constraint
pub mod Comment
pub mod Layout
use schema_forge_backend.Base.{ℕ, Bool, List, [], ◌∷◌, ◌++◌, map, is_empty, if◌then◌else◌}
use schema_forge_backend.Text.{Text, lit, join}
use schema_forge_backend.Text.Case.{Unicode}
use schema_forge_backend.Domain.Entity.{Entity}
use schema_forge_backend.Domain.Schema.{Schema}
use schema_forge_backend.Domain.Dialect.{Dialect, postgres}
use Table.{create_table}
use Constraint.{foreign_keys}
use Comment.{comments}
use Layout.{position}

pub record GenerateOptions : Type 0 where
  pub include_comments : Bool
  pub include_positions : Bool

-- `PostgresGenerator::dialect`
unfoldable pub dialect : Dialect
dialect = postgres

table_block : Unicode → Bool → Entity → Text
unfolding create_table position
table_block unicode include_positions e =
    if include_positions
    then position e ++ (b'\n' ∷ create_table unicode e)
    else create_table unicode e

documentation_block : Bool → List Text → List Text
unfolding join
documentation_block include_comments documentation =
    if include_comments
    then if is_empty documentation then [] else join (b'\n' ∷ []) documentation ∷ []
    else []

unfoldable pub blocks : Unicode → Schema → GenerateOptions → List Text
unfolding table_block documentation_block foreign_keys comments
blocks unicode s options =
    map (table_block unicode options.include_positions) s.entities
    ++ (foreign_keys s ++ documentation_block options.include_comments (comments s))

unfoldable pub generate : Unicode → Schema → GenerateOptions → Text
unfolding blocks join
generate unicode s options = join (b'\n' ∷ b'\n' ∷ []) (blocks unicode s options)
