-- ===== src/Tests/Verdicts.antt =====
-- The verdict on the shop, and on a shop that has lost a primary key.
use schema_forge_backend.Base.{false, ◌≢◌, [], All, true, any, ◌≡◌, ◌↔◌, map, none, list_eq, nat_eq}
use schema_forge_backend.Text.Case.{ascii}
use schema_forge_backend.Domain.Entity.{Entity}
use schema_forge_backend.Domain.Diagnostic.{is_valid, has}
use schema_forge_backend.Domain.Diagnostic.Code
use schema_forge_backend.Verifier.{verify}
use schema_forge_backend.Verifier.Syntax.{parameter_problem}
use schema_forge_backend.Verifier.Syntax.Laws.{ParametersFit, parameter_problem_iff}
use schema_forge_backend.Verifier.Structure.{same_name_groups, folded}
use schema_forge_backend.Verifier.Structure.Groups.{repeated, same_name_groups-eq-repeated}
use schema_forge_backend.Verifier.WellFormed.{
  WellFormed, IsNamed, EndsExist, Unrepeated, HasPrimaryKey, IsDescribed,
}
use schema_forge_backend.Text.Trim.{trim}
use schema_forge_backend.Verifier.Verdict.{verify-is_valid_iff}
use schema_forge_backend.Verifier.Findings.{verify-has}
use schema_forge_backend.Tests.Sample.{shop, email}

verify-is_valid_iff_example : (is_valid (verify ascii shop) ≡ true) ↔ WellFormed ascii shop
verify-is_valid_iff_example = verify-is_valid_iff ascii shop

verify-has_example :
    ((has (verify ascii shop) Code.empty_schema ≡ false) ↔ (shop.entities ≢ []))
    × ((has (verify ascii shop) Code.empty_name ≡ false) ↔ All IsNamed shop.entities)
    × ((has (verify ascii shop) Code.invalid_type_parameter ≡ false)
        ↔ All (λ e. All (λ a. ParametersFit a.data_type) e.attributes) shop.entities)
    × ((has (verify ascii shop) Code.dangling_relationship ≡ false)
        ↔ All (EndsExist shop) shop.relationships)
    × ((has (verify ascii shop) Code.duplicate_entity_name ≡ false)
        ↔ Unrepeated (map (λ e. folded ascii e.name) shop.entities))
    × ((has (verify ascii shop) Code.duplicate_attribute_name ≡ false)
        ↔ All (λ e. Unrepeated (map (λ a. folded ascii a.name) e.attributes)) shop.entities)
    × ((has (verify ascii shop) Code.missing_primary_key ≡ false) ↔ All HasPrimaryKey shop.entities)
    × ((has (verify ascii shop) Code.missing_description ≡ false) ↔ (
        All IsDescribed shop.entities
        × All (λ link. trim link.description ≢ []) shop.relationships))
verify-has_example = verify-has ascii shop

same_name_groups-eq-repeated_example :
    any (λ _. true) (same_name_groups (λ (e : Entity). e.name) shop.entities)
    ≡ repeated (map (λ e. e.name) shop.entities)
same_name_groups-eq-repeated_example =
    same_name_groups-eq-repeated (λ (e : Entity). e.name) shop.entities

parameter_problem_iff_example : (parameter_problem email ≡ none) ↔ ParametersFit email
parameter_problem_iff_example = parameter_problem_iff email
