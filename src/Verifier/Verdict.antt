-- ===== src/Verifier/Verdict.antt =====
-- The verdict of the verifier: which diagnostics a report holds, and when it holds no error.
use schema_forge_backend.Base.{
  ℕ, List, Bool, true, false, not, ◌&&◌, ◌||◌, ◌≡◌, ◌↔◌, any, map, any-false_iff, arith, list_eq,
  nat_eq,
}
use schema_forge_backend.Text.Case.{Unicode}
use schema_forge_backend.Domain.Entity.{has_primary_key}
use schema_forge_backend.Domain.Relationship.{is_documented as is_documented_link}
use schema_forge_backend.Domain.Schema.{Schema, has_no_entities}
use schema_forge_backend.Domain.Diagnostic.{error, warning, empty, is_valid}
use schema_forge_backend.Domain.Diagnostic.Code
use schema_forge_backend.Domain.Diagnostic.Laws.{Flag, hits, severe, is_valid-eq-hits, hits-empty}
use schema_forge_backend.Verifier.{verify}
use schema_forge_backend.Verifier.Syntax.{
  ends_resolve, check_not_empty, check_names, check_type_parameters, check_relationship_ends,
}
use schema_forge_backend.Verifier.Syntax.Laws.{
  has_unnamed, has_bad_parameter, check_not_empty-Adds, check_names-Adds,
  check_type_parameters-Adds, check_relationship_ends-Adds,
}
use schema_forge_backend.Verifier.Structure.{folded, check_duplicate_names, check_primary_keys}
use schema_forge_backend.Verifier.Structure.Laws.{
  repeats_table, repeats_column, check_duplicate_names-Adds, check_primary_keys-Adds,
}
use schema_forge_backend.Verifier.References.{check_foreign_keys, check_relationships}
use schema_forge_backend.Verifier.References.Keys.{reference_hit, check_foreign_keys-Adds}
use schema_forge_backend.Verifier.References.Links.{link_hit, check_relationships-Adds}
use schema_forge_backend.Verifier.Cycles.{overlaps, linked, blocked, check_cycles}
use schema_forge_backend.Verifier.Cycles.Laws.{component_hit, check_cycles-Adds}
use schema_forge_backend.Verifier.Documentation.Laws.{lacks_documentation, check_documentation-Adds}
use schema_forge_backend.Verifier.WellFormed.{WellFormed}
use schema_forge_backend.Verifier.WellFormed.Elements.{
  unnamed_iff, bad_parameter_iff, ends_iff, repeated_iff, keyed_iff, reference_iff, IsHeld-iff,
}

-- Every diagnostic that a schema calls for, by defect class.
abbrev pub called_for : Flag → Unicode → Schema → Bool
called_for p unicode s =
    (has_no_entities s && p Code.empty_schema warning)
    || (any has_unnamed s.entities && p Code.empty_name error)
    || (any has_bad_parameter s.entities && p Code.invalid_type_parameter error)
    || (any (λ link. not (ends_resolve s link)) s.relationships
        && p Code.dangling_relationship error)
    || ((repeats_table unicode s && p Code.duplicate_entity_name error)
        || (any (repeats_column unicode) s.entities && p Code.duplicate_attribute_name error))
    || (any (λ e. not (has_primary_key e)) s.entities && p Code.missing_primary_key error)
    || any (λ e. any (λ a. reference_hit p s a a.foreign_key) e.attributes) s.entities
    || any (link_hit p s) s.relationships
    || any (component_hit p (blocked s)) (linked s)
    || ((any lacks_documentation s.entities && p Code.missing_description warning)
        || (any (λ link. not (is_documented_link link)) s.relationships
            && p Code.missing_description warning))

-- A report holds a finding of a given sort, which `p` tells by code and severity, exactly when one of
-- the ten defect classes of the schema calls for it.
pub verify-hits :
    (p : Flag) (unicode : Unicode) (s : Schema) → hits p (verify unicode s) ≡ called_for p unicode s
unfolding verify
verify-hits p unicode s =
    let r1 = check_not_empty s empty in
    let r2 = check_names s r1 in
    let r3 = check_type_parameters s r2 in
    let r4 = check_relationship_ends s r3 in
    let r5 = check_duplicate_names unicode s r4 in
    let r6 = check_primary_keys s r5 in
    let r7 = check_foreign_keys s r6 in
    let r8 = check_relationships s r7 in
    let r9 = check_cycles s r8 in
    rw (
      check_documentation-Adds p s r9,
      check_cycles-Adds p s r8,
      check_relationships-Adds p s r7,
      check_foreign_keys-Adds p s r6,
      check_primary_keys-Adds p s r5,
      check_duplicate_names-Adds p unicode s r4,
      check_relationship_ends-Adds p s r3,
      check_type_parameters-Adds p s r2,
      check_names-Adds p s r1,
      check_not_empty-Adds p s empty,
      hits-empty p,
    )

component_severe_iff :
    (cycles : List (List ℕ)) (component : List ℕ)
    → (component_hit severe cycles component ≡ false) ↔ (overlaps cycles component ≡ false)
component_severe_iff cycles component = ground arith

-- A schema passes the verifier exactly when it is well formed: every table and column is named, type
-- parameters are in range, the ends of relationships exist, no name is repeated, every table has a
-- primary key, every foreign key resolves to a key of the same family, every relationship that is
-- not many-to-many is held by a foreign key, and no cycle of foreign keys meets one in which all are
-- NOT NULL. Warnings do not count.
pub verify-is_valid_iff :
    (unicode : Unicode) (s : Schema) → (is_valid (verify unicode s) ≡ true) ↔ WellFormed unicode s
verify-is_valid_iff unicode s =
    let verdict = is_valid-eq-hits (verify unicode s) in
    let found = verify-hits severe unicode s in
    let named = any-false_iff _ s.entities unnamed_iff in
    let parameters = any-false_iff _ s.entities bad_parameter_iff in
    let ends = any-false_iff _ s.relationships (ends_iff s) in
    let tables = repeated_iff (map (λ e. folded unicode e.name) s.entities) in
    let columns =
      any-false_iff (repeats_column unicode) s.entities
        (λ e. repeated_iff (map (λ a. folded unicode a.name) e.attributes)) in
    let keyed = any-false_iff _ s.entities keyed_iff in
    let references =
      any-false_iff _ s.entities
        (λ e. any-false_iff _ e.attributes (λ a. reference_iff s a a.foreign_key)) in
    let held = any-false_iff _ s.relationships (IsHeld-iff s) in
    let insertable =
      any-false_iff (component_hit severe (blocked s)) (linked s)
        (λ component. component_severe_iff (blocked s) component) in
    (
      λ h. record {
        named = named.0 (ground arith);
        parameters = parameters.0 (ground arith);
        ends = ends.0 (ground arith);
        tables = tables.0 (ground arith);
        columns = columns.0 (ground arith);
        keyed = keyed.0 (ground arith);
        references = references.0 (ground arith);
        held = held.0 (ground arith);
        insertable = insertable.0 (ground arith);
      },
      λ w. ground (
        arith,
        named.1 w.named,
        parameters.1 w.parameters,
        ends.1 w.ends,
        tables.1 w.tables,
        columns.1 w.columns,
        keyed.1 w.keyed,
        references.1 w.references,
        held.1 w.held,
        insertable.1 w.insertable,
      ),
    )
