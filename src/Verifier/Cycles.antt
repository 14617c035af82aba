-- ===== src/Verifier/Cycles.antt =====
-- src/module/schema/core/service/verifier/cycles.rs
pub mod Tarjan
pub mod Laws
use Tarjan.{strongly_connected}
use schema_forge_backend.Base.{
  ℕ, suc, Bool, true, false, not, ◌&&◌, ◌||◌, ◌==◌, nat_eq, list_eq, if◌then◌else◌, List, [], ◌∷◌,
  ◌++◌, Option, none, some, for_each, any, map, length, get_elem?,
}
use schema_forge_backend.Text.{Text, lit, join}
use schema_forge_backend.Domain.Attribute.{Attribute, ForeignKeyRef}
use schema_forge_backend.Domain.Entity.{Entity}
use schema_forge_backend.Domain.Schema.{Schema}
use schema_forge_backend.Domain.Diagnostic.{
  Diagnostic, Report, an_error, a_warning, about, at, push,
}
use schema_forge_backend.Domain.Diagnostic.Code
use schema_forge_backend.Verifier.Names.{table}

-- The position of the last entity with the id: a later entry replaces an earlier one in the map.
unfoldable pub position_of : ℕ → Text → List Entity → Option ℕ
position_of first id [] = none
position_of first id (e ∷ es) = elim (position_of (suc first) id es) [
  | some later ↦ some later
  | none ↦ if e.id == id then some first else none
]

edges_to : (required_only : Bool) → ℕ → Attribute → Option ℕ → List (ℕ × ℕ)
edges_to required_only from a none = []
edges_to required_only from a (some to) =
    if to == from || (required_only && a.nullable) then [] else (from, to) ∷ []

edges_of_reference : Bool → List Entity → ℕ → Attribute → Option ForeignKeyRef → List (ℕ × ℕ)
unfolding edges_to position_of
edges_of_reference required_only es from a none = []
edges_of_reference required_only es from a (some reference) =
    edges_to required_only from a (position_of 0 reference.entity_id es)

edges_of_entity : Bool → List Entity → ℕ → List Attribute → List (ℕ × ℕ)
unfolding edges_of_reference
edges_of_entity required_only es from [] = []
edges_of_entity required_only es from (a ∷ others) =
    edges_of_reference required_only es from a a.foreign_key
    ++ edges_of_entity required_only es from others

edges_from : Bool → List Entity → ℕ → List Entity → List (ℕ × ℕ)
unfolding edges_of_entity
edges_from required_only es from [] = []
edges_from required_only es from (e ∷ rest) =
    edges_of_entity required_only es from e.attributes
    ++ edges_from required_only es (suc from) rest

-- The foreign keys between different tables, as edges between their positions: all of them, or
-- those alone that are NOT NULL.
unfoldable pub edges : (required_only : Bool) → Schema → List (ℕ × ℕ)
unfolding edges_from
edges required_only s = edges_from required_only s.entities 0 s.entities

unfoldable pub overlaps : List (List ℕ) → List ℕ → Bool
overlaps blocked component =
    any (λ cycle. any (λ position. any (λ member. member == position) component) cycle) blocked

table_at : List Entity → ℕ → Text
unfolding table
table_at es position = elim (get_elem? es position) [ none ↦ [] | some e ↦ table e ]

id_at : List Entity → ℕ → Text
id_at es position = elim (get_elem? es position) [ none ↦ [] | some e ↦ e.id ]

at_position : Option Entity → Diagnostic → Diagnostic
at_position none d = d
at_position (some e) d = at e.position d

at_first_of : List Entity → List ℕ → Diagnostic → Diagnostic
unfolding at_position
at_first_of es [] d = d
at_first_of es (position ∷ _) d = at_position (get_elem? es position) d

cycle_diagnostic : Bool → Text → Diagnostic
unfolding lit
cycle_diagnostic true names = an_error Code.circular_dependency (
    names
    ++ lit
        " depend on each other through foreign keys that are all NOT NULL, so no row can be inserted first")
cycle_diagnostic false names = a_warning Code.circular_dependency (
    names
    ++ lit
        " depend on each other through foreign keys, so some rows have to be inserted with a NULL and updated later")

report_component : List Entity → List (List ℕ) → List ℕ → Report → Report
unfolding lit join table_at id_at at_first_of cycle_diagnostic overlaps
report_component es blocked component report =
    push
      (for_each component (λ position. about (id_at es position))
        (at_first_of es component (
          cycle_diagnostic (overlaps blocked component)
            (join (lit ", ") (map (table_at es) component)))))
      report

-- The components of the foreign keys, and of those that are NOT NULL.
unfoldable pub linked : Schema → List (List ℕ)
unfolding edges strongly_connected
linked s = strongly_connected (length s.entities) (edges false s)

unfoldable pub blocked : Schema → List (List ℕ)
unfolding edges strongly_connected
blocked s = strongly_connected (length s.entities) (edges true s)

unfoldable pub check_cycles : Schema → Report → Report
unfolding report_component
check_cycles s report = for_each (linked s) (report_component s.entities (blocked s)) report
