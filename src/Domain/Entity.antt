-- ===== src/Domain/Entity.antt =====
-- src/module/schema/core/domain/entity.rs
-- A coordinate is the 64 bits of an `f64`; `f64_beq` is the comparison of such values, in which a
-- NaN equals nothing and the two zeros are equal.
use schema_forge_backend.Base.{
  ℕ, ◌%◌, ◌^◌, Bool, not, ◌&&◌, ◌||◌, ltb, ◌==◌, nat_eq, List, [], Option, find, filter, any,
  is_empty, list_eq,
}
use schema_forge_backend.Text.{Text}
use schema_forge_backend.Text.Trim.{trim}
use schema_forge_backend.Text.Case.{eq_ignore_ascii_case}
use schema_forge_backend.Domain.Attribute.{Attribute}

-- The bits below the sign.
abbrev magnitude : ℕ → ℕ
magnitude bits = bits % 2 ^ 63

-- Exponent all ones and a fraction: above the bits of infinity.
unfoldable pub is_nan : ℕ → Bool
is_nan bits = ltb 0x7ff0_0000_0000_0000 (magnitude bits)

unfoldable pub f64_beq : ℕ → ℕ → Bool
unfolding is_nan
f64_beq a b = not (is_nan a) && not (is_nan b) && (a == b || (magnitude a == 0 && magnitude b == 0))

pub record Position : Type 0 where
  pub x : ℕ
  pub y : ℕ

-- `Position::default`: the bits of 0.0 are all zero.
unfoldable pub origin : Position
origin = record { x = 0; y = 0 }

-- The derived `PartialEq`.
unfoldable pub same_position : Position → Position → Bool
unfolding f64_beq
same_position p q = f64_beq p.x q.x && f64_beq p.y q.y

pub record Entity : Type 0 where
  pub id : Text
  pub name : Text
  pub description : Text
  pub attributes : List Attribute
  pub position : Position

-- `Entity::new`
unfoldable pub new : Text → Text → Entity
unfolding origin
new i n = record { id = i; name = n; description = []; attributes = []; position = origin }

unfoldable pub with_description : Text → Entity → Entity
with_description d e = record e { description = d }

unfoldable pub with_position : Position → Entity → Entity
with_position p e = record e { position = p }

unfoldable pub with_attributes : List Attribute → Entity → Entity
with_attributes attributes e = record e { attributes = attributes }

unfoldable pub attribute : Entity → Text → Option Attribute
attribute e attribute_id = find (λ a. a.id == attribute_id) e.attributes

unfoldable pub attribute_by_name : Entity → Text → Option Attribute
attribute_by_name e name = find (λ a. eq_ignore_ascii_case a.name name) e.attributes

unfoldable pub primary_key : Entity → List Attribute
primary_key e = filter (λ a. a.primary_key) e.attributes

unfoldable pub has_primary_key : Entity → Bool
has_primary_key e = any (λ a. a.primary_key) e.attributes

unfoldable pub is_documented : Entity → Bool
is_documented e = not (is_empty (trim e.description))
