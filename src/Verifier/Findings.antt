-- ===== src/Verifier/Findings.antt =====
-- Which codes a report holds: each defect class of the diagram is reported under its own code, and
-- under no other.
use schema_forge_backend.Base.{
  Bool, ◌↔◌, ◌≢◌, List, [], ◌∷◌, All, map, is_empty, subst, sym, any-false_iff, false, not, ◌||◌,
  ◌≡◌, refl, any, any-none, arith, list_eq, list_beq, nat_eq, ◌==◌, Option, none, some,
}
use schema_forge_backend.Text.{Text}
use schema_forge_backend.Text.Case.{Unicode}
use schema_forge_backend.Domain.Attribute.{Attribute, ForeignKeyRef}
use schema_forge_backend.Domain.Entity.{Entity, has_primary_key}
use schema_forge_backend.Domain.Relationship.{Cardinality, is_documented as is_documented_link}
use schema_forge_backend.Domain.Schema.{Schema, resolve, has_no_entities}
use schema_forge_backend.Domain.Diagnostic.{error, warning, has}
use schema_forge_backend.Domain.Diagnostic.Code.{
  dangling_relationship, empty_name, empty_schema, invalid_type_parameter, duplicate_entity_name,
  duplicate_attribute_name, missing_primary_key, invalid_foreign_key, foreign_key_not_a_key,
  circular_dependency, type_mismatch, relationship_without_foreign_key, cardinality_mismatch,
  missing_description,
}
use schema_forge_backend.Domain.Diagnostic.Laws.{Flag}
use schema_forge_backend.Verifier.{verify}
use schema_forge_backend.Verifier.Syntax.{ends_resolve}
use schema_forge_backend.Verifier.Syntax.Laws.{has_unnamed, has_bad_parameter, ParametersFit}
use schema_forge_backend.Verifier.Structure.Laws.{repeats_table, repeats_column}
use schema_forge_backend.Verifier.References.Keys.{target_hit, reference_hit}
use schema_forge_backend.Verifier.References.Links.{ends_hit, link_hit}
use schema_forge_backend.Verifier.Cycles.{linked, blocked}
use schema_forge_backend.Verifier.Cycles.Laws.{component_hit}
use schema_forge_backend.Verifier.Documentation.Laws.{lacks_documentation}
use schema_forge_backend.Verifier.Structure.{folded}
use schema_forge_backend.Text.Trim.{trim}
use schema_forge_backend.Verifier.WellFormed.{
  IsNamed, EndsExist, Unrepeated, HasPrimaryKey, IsDescribed,
}
use schema_forge_backend.Verifier.WellFormed.Elements.{
  unnamed_iff, bad_parameter_iff, ends_iff, repeated_iff, keyed_iff,
}
use schema_forge_backend.Verifier.WellFormed.Described.{IsDescribed-iff, described_link_iff}
use schema_forge_backend.Verifier.Verdict.{verify-hits}

-- The flag of one code.
abbrev coded : Text → Flag
coded wanted code _ = code == wanted

-- A flag that no finding about references, links or cycles meets.
record IsElementary (p : Flag) : Type 0 where
  unresolved : p invalid_foreign_key error ≡ false
  not_key : p foreign_key_not_a_key error ≡ false
  mismatch : p type_mismatch error ≡ false
  narrow : p type_mismatch warning ≡ false
  unheld : p relationship_without_foreign_key error ≡ false
  misfit : p cardinality_mismatch warning ≡ false
  cycle : p circular_dependency error ≡ false
  loose_cycle : p circular_dependency warning ≡ false

module _ (p : Flag) (elementary : IsElementary p) where
  target_silent :
      (a : Attribute) (found : Option (Entity × Attribute)) → target_hit p a found ≡ false
  target_silent a none = elementary.unresolved
  target_silent a (some (target, key)) = ground arith

  reference_silent :
      (s : Schema) (a : Attribute) (r : Option ForeignKeyRef) → reference_hit p s a r ≡ false
  reference_silent s a none = refl
  reference_silent s a (some r) = target_silent a _

  ends_silent :
      (c : Cardinality) (from to : Option (Entity × Attribute)) → ends_hit p c from to ≡ false
  ends_silent c none to = refl
  ends_silent c (some from) none = refl
  ends_silent c (some from) (some to) = ground arith

  silent :
      (s : Schema)
      → (any (λ e. any (λ a. reference_hit p s a a.foreign_key) e.attributes) s.entities
          || any (link_hit p s) s.relationships
          || any (component_hit p (blocked s)) (linked s))
        ≡ false
  silent s = rw (
    any-none (λ e. any (λ a. reference_hit p s a a.foreign_key) e.attributes) s.entities
        (λ e. any-none _ e.attributes (λ a. reference_silent s a a.foreign_key)),
    any-none (link_hit p s) s.relationships (λ link. ground (
      arith,
      ends_silent link.cardinality (resolve s link.from_entity_id link.from_attribute_id)
          (resolve s link.to_entity_id link.to_attribute_id),
    )),
    any-none (component_hit p (blocked s)) (linked s) (λ component. ground arith),
  )

-- Each of these codes is in the report exactly when the check of that class finds something.
has-verify :
    (unicode : Unicode) (s : Schema)
    → (has (verify unicode s) empty_schema ≡ has_no_entities s)
      × (has (verify unicode s) empty_name ≡ any has_unnamed s.entities)
      × (has (verify unicode s) invalid_type_parameter ≡ any has_bad_parameter s.entities)
      × (has (verify unicode s) dangling_relationship
          ≡ any (λ link. not (ends_resolve s link)) s.relationships)
      × (has (verify unicode s) duplicate_entity_name ≡ repeats_table unicode s)
      × (has (verify unicode s) duplicate_attribute_name ≡ any (repeats_column unicode) s.entities)
      × (has (verify unicode s) missing_primary_key ≡ any (λ e. not (has_primary_key e)) s.entities)
      × (has (verify unicode s) missing_description ≡ (
          any lacks_documentation s.entities
          || any (λ link. not (is_documented_link link)) s.relationships))
unfolding has dangling_relationship empty_name empty_schema invalid_type_parameter
    duplicate_entity_name duplicate_attribute_name missing_primary_key invalid_foreign_key
    foreign_key_not_a_key circular_dependency type_mismatch relationship_without_foreign_key
    cardinality_mismatch missing_description list_beq
has-verify unicode s = (
  ground (
    arith,
    verify-hits (coded empty_schema) unicode s,
    silent (coded empty_schema) (ground arith) s,
  ),
  ground
      (arith, verify-hits (coded empty_name) unicode s, silent (coded empty_name) (ground arith) s),
  ground (
    arith,
    verify-hits (coded invalid_type_parameter) unicode s,
    silent (coded invalid_type_parameter) (ground arith) s,
  ),
  ground (
    arith,
    verify-hits (coded dangling_relationship) unicode s,
    silent (coded dangling_relationship) (ground arith) s,
  ),
  ground (
    arith,
    verify-hits (coded duplicate_entity_name) unicode s,
    silent (coded duplicate_entity_name) (ground arith) s,
  ),
  ground (
    arith,
    verify-hits (coded duplicate_attribute_name) unicode s,
    silent (coded duplicate_attribute_name) (ground arith) s,
  ),
  ground (
    arith,
    verify-hits (coded missing_primary_key) unicode s,
    silent (coded missing_primary_key) (ground arith) s,
  ),
  ground (
    arith,
    verify-hits (coded missing_description) unicode s,
    silent (coded missing_description) (ground arith) s,
  ),
)

no_tables_iff : (entities : List Entity) → (is_empty entities ≡ false) ↔ (entities ≢ [])
no_tables_iff [] = ((λ e. cc), (λ n. absurd (n refl)))
no_tables_iff (e ∷ entities) = ((λ _ h. cc), (λ _. refl))

along : {P : Type 0} {b c : Bool} → b ≡ c → (c ≡ false) ↔ P → (b ≡ false) ↔ P
along {P = P} same iff = subst (λ b. (b ≡ false) ↔ P) (sym same) iff

documented_iff :
    (s : Schema)
    → ((any lacks_documentation s.entities
          || any (λ link. not (is_documented_link link)) s.relationships)
        ≡ false)
      ↔ (All IsDescribed s.entities × All (λ link. trim link.description ≢ []) s.relationships)
documented_iff s =
    let tables = any-false_iff lacks_documentation s.entities IsDescribed-iff in
    let links =
      any-false_iff (λ link. not (is_documented_link link)) s.relationships described_link_iff in
    ground (arith, tables, links)

-- Each code of the diagram's own form is absent from the report exactly when the diagram is free of
-- that defect: there is a table; every table and column has a name; every type parameter is in
-- range; both ends of every relationship exist; no table name is repeated; no column name is
-- repeated in one table; every table has a primary key column; every table, column and relationship
-- has a description. Names and descriptions count as missing when they are blank, and two names are
-- the same when they are trimmed and in lower case.
pub verify-has :
    (unicode : Unicode) (s : Schema)
    → ((has (verify unicode s) empty_schema ≡ false) ↔ (s.entities ≢ []))
      × ((has (verify unicode s) empty_name ≡ false) ↔ All IsNamed s.entities)
      × ((has (verify unicode s) invalid_type_parameter ≡ false)
          ↔ All (λ e. All (λ a. ParametersFit a.data_type) e.attributes) s.entities)
      × ((has (verify unicode s) dangling_relationship ≡ false) ↔ All (EndsExist s) s.relationships)
      × ((has (verify unicode s) duplicate_entity_name ≡ false)
          ↔ Unrepeated (map (λ e. folded unicode e.name) s.entities))
      × ((has (verify unicode s) duplicate_attribute_name ≡ false)
          ↔ All (λ e. Unrepeated (map (λ a. folded unicode a.name) e.attributes)) s.entities)
      × ((has (verify unicode s) missing_primary_key ≡ false) ↔ All HasPrimaryKey s.entities)
      × ((has (verify unicode s) missing_description ≡ false)
          ↔ (All IsDescribed s.entities × All (λ link. trim link.description ≢ []) s.relationships))
unfolding has_no_entities
verify-has unicode s =
    let (tables, names, parameters, ends, entities, attributes, keys, descriptions) =
      has-verify unicode s in
    (
      along tables (no_tables_iff s.entities),
      along names (any-false_iff _ s.entities unnamed_iff),
      along parameters (any-false_iff _ s.entities bad_parameter_iff),
      along ends (any-false_iff _ s.relationships (ends_iff s)),
      along entities (repeated_iff (map (λ e. folded unicode e.name) s.entities)),
      along attributes (
          any-false_iff (repeats_column unicode) s.entities
            (λ e. repeated_iff (map (λ a. folded unicode a.name) e.attributes))),
      along keys (any-false_iff _ s.entities keyed_iff),
      along descriptions (documented_iff s),
    )
