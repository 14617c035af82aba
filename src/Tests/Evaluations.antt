-- ===== src/Tests/Evaluations.antt =====
-- The verifier run on the shop, and on a shop with a table that has no column.
use schema_forge_backend.Base.{true, false, ◌≡◌, refl, [], ◌∷◌, some, list_beq}
use schema_forge_backend.Text.{lit}
use schema_forge_backend.Text.Trim
use schema_forge_backend.Text.Case
use schema_forge_backend.Text.Case.{ascii}
use schema_forge_backend.Domain.DataType
use schema_forge_backend.Domain.Attribute
use schema_forge_backend.Domain.Attribute.{Attribute}
use schema_forge_backend.Domain.Entity
use schema_forge_backend.Domain.Relationship
use schema_forge_backend.Domain.Schema
use schema_forge_backend.Domain.Schema.{Schema}
use schema_forge_backend.Domain.Diagnostic
use schema_forge_backend.Domain.Diagnostic.{is_valid, has}
use schema_forge_backend.Domain.Diagnostic.Code
use schema_forge_backend.Verifier
use schema_forge_backend.Verifier.{verify}
use schema_forge_backend.Verifier.Names
use schema_forge_backend.Verifier.Syntax
use schema_forge_backend.Verifier.Structure
use schema_forge_backend.Verifier.References
use schema_forge_backend.Verifier.Cycles
use schema_forge_backend.Verifier.Cycles.Tarjan
use schema_forge_backend.Verifier.Documentation
use schema_forge_backend.Tests.Sample.{shop, customer, order, order_customer}

abbrev keyless : Schema
keyless = record shop { entities = customer ∷ record customer { id = []; attributes = [] } ∷ [] }

-- A customer that needs the order which needs the customer.
abbrev needy : Attribute
unfolding lit
needy = record order_customer {
  id = lit "c1";
  primary_key = true;
  foreign_key = some (record { entity_id = lit "o"; attribute_id = lit "o2" });
}

abbrev entangled : Schema
entangled = record shop { entities = record customer { attributes = needy ∷ [] } ∷ order ∷ [] }

-- The shop is valid; a table with no column has no primary key; two tables that need each other form
-- a cycle.
verify_runs :
    (is_valid (verify ascii shop) ≡ true)
    × (has (verify ascii keyless) Code.missing_primary_key ≡ true)
    × (is_valid (verify ascii entangled) ≡ false)
    × (has (verify ascii entangled) Code.circular_dependency ≡ true)
unfolding is_valid Diagnostic.is_error verify Verifier.checks ascii Case.to_ascii_lowercase
    Case.to_ascii_lower list_beq lit Trim.trim Trim.is_whitespace Documentation.check_documentation
    Documentation.undocumented Relationship.is_documented Entity.is_documented
    Attribute.is_documented Cycles.check_cycles Cycles.linked Cycles.edges Cycles.blocked
    Cycles.overlaps Cycles.position_of Tarjan.strongly_connected Tarjan.visit_all Tarjan.visit
    Tarjan.close Tarjan.pop_until Tarjan.explore Tarjan.lower Tarjan.enter Tarjan.adjacency_of
    Tarjan.lexicographic References.check_relationships References.points_at References.is_narrower
    References.bound References.width References.check_foreign_keys Relationship.requires_join_table
    Schema.resolve Schema.entity Entity.attribute Names.is_unique_key Entity.primary_key
    Entity.has_primary_key DataType.is_compatible_with DataType.family DataType.discriminant
    Structure.check_primary_keys Structure.check_duplicate_names Structure.folded
    Syntax.check_not_empty Syntax.check_names Syntax.parameter_problem Syntax.check_type_parameters
    Syntax.ends_resolve Syntax.check_relationship_ends DataType.takes_length
    DataType.takes_precision Schema.has_no_entities Diagnostic.empty Diagnostic.push
    Structure.same_name_groups has Code.missing_primary_key Code.circular_dependency Diagnostic.at
    Diagnostic.about Diagnostic.an_error Code.dangling_relationship Code.duplicate_entity_name
    Code.foreign_key_not_a_key Diagnostic.a_warning Code.cardinality_mismatch
verify_runs = (refl, refl, refl, refl)
