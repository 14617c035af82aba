-- ===== src/SchemaService/Postgres/Statements.antt =====
-- src/module/schema/adapter/repository/postgres.rs: what its statements say of the two tables, without
-- what they ask of the database.
use schema_forge_backend.Base.{
  ℕ, ℤ, pos, negsuc, ltb, Bool, true, not, ◌&&◌, ◌||◌, ◌==◌, nat_eq, list_eq, if◌then◌else◌, List,
  [], ◌∷◌, map, filter, any, take, drop, Option, none, some,
}
use schema_forge_backend.Text.{Text}
use schema_forge_backend.SchemaService.Ports.{Uuid}
use schema_forge_backend.SchemaService.Postgres.Rows.{SchemaRow, Ownership, Tables}

-- `i32::max(0) as u32`
abbrev pub count : ℤ → ℕ
count (pos n) = n
count (negsuc n) = 0

-- `LIMIT` and `OFFSET`, which are not negative.
abbrev pub paged : {A : Type 0} → ℤ → ℤ → List A → Option (List A)
paged (pos limit) (pos start) rows = some (take limit (drop start rows))
paged _ _ rows = none

-- `s.id IS DISTINCT FROM $3`
abbrev pub is_other : Uuid → Option Uuid → Bool
is_other id none = true
is_other id (some except) = not (id == except)

module _ {Doc : Type 0} where
  -- `ORDER BY us.created_at, us.schema_id`
  abbrev pub comes_before : (left right : SchemaRow Doc × Ownership) → Bool
  comes_before left right =
      ltb left.1.created_at right.1.created_at
      || (left.1.created_at == right.1.created_at && ltb left.1.schema_id right.1.schema_id)

  unfoldable pub insert_row :
      SchemaRow Doc × Ownership
      → List (SchemaRow Doc × Ownership)
      → List (SchemaRow Doc × Ownership)
  insert_row row [] = row ∷ []
  insert_row row (other ∷ rows) =
      let later = insert_row row rows in
      if comes_before other row then other ∷ later else row ∷ other ∷ rows

  unfoldable pub ordered : List (SchemaRow Doc × Ownership) → List (SchemaRow Doc × Ownership)
  unfolding insert_row
  ordered [] = []
  ordered (row ∷ rows) = insert_row row (ordered rows)

  -- `us.schema_id = s.id AND us.user_id = $1 AND s.id = $2`
  abbrev pub is_hit : Uuid → Uuid → List Ownership → SchemaRow Doc → Bool
  is_hit owner id user_schemas s =
      s.id == id && any (λ us. us.schema_id == s.id && us.user_id == owner) user_schemas

  abbrev pub inserted : SchemaRow Doc → Tables Doc → Tables Doc
  inserted row t = record t { schemas = row ∷ t.schemas }

  abbrev pub owned_by : Uuid → SchemaRow Doc → Tables Doc → Tables Doc
  owned_by owner row t = record t {
    user_schemas =
        record { user_id = owner; schema_id = row.id; created_at = row.created_at }
        ∷ t.user_schemas;
  }

  -- A row with what an update sets.
  abbrev pub set_row : Text → Text → Doc → Doc → ℕ → SchemaRow Doc → SchemaRow Doc
  set_row name description entities relationships now s = record s {
    name = name;
    description = description;
    entities = entities;
    relationships = relationships;
    updated_at = now;
  }

  abbrev pub updated : Uuid → Uuid → (SchemaRow Doc → SchemaRow Doc) → Tables Doc → Tables Doc
  updated owner id set t = record t {
    schemas = map (λ s. if is_hit owner id t.user_schemas s then set s else s) t.schemas;
  }

  -- The rows that are hit go, and what refers to them, `ON DELETE CASCADE`.
  abbrev pub deleted : Uuid → Uuid → Tables Doc → Tables Doc
  deleted owner id t = record {
    schemas = filter (λ s. not (is_hit owner id t.user_schemas s)) t.schemas;
    user_schemas =
        filter
          (λ us.
            not (any (λ s. is_hit owner id t.user_schemas s && s.id == us.schema_id) t.schemas))
          t.user_schemas;
  }
