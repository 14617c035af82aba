-- ===== src/SchemaService/Postgres/Found.antt =====
-- That a schema which was created is found again, as it was answered.
use schema_forge_backend.Base.{Bool, ◌&&◌, ◌==◌, nat_eq, flat_map}
use mathlib.Core.List.{flat_map}
use schema_forge_backend.Domain.Schema.{Schema}
use schema_forge_backend.SchemaService.Ports.{Uuid}
use schema_forge_backend.SchemaService.Postgres.Rows.{SchemaRow, Ownership, Outside}

module _ {Doc W : Type 0} (o : Outside Doc W) where
  abbrev link_of : Uuid → SchemaRow Doc → Ownership
  link_of owner row = record { user_id = owner; schema_id = row.id; created_at = row.created_at }

  abbrev is_wanted : Uuid → Uuid → SchemaRow Doc × Ownership → Bool
  is_wanted owner id r = r.1.user_id == owner && r.0.id == id
