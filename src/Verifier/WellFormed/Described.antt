-- ===== src/Verifier/WellFormed/Described.antt =====
-- The check of descriptions against its account.
use schema_forge_backend.Base.{
  true, false, not, ◌≡◌, ◌≢◌, ◌↔◌, refl, [], ◌∷◌, List, All, filter, is_empty, arith,
}
use schema_forge_backend.Text.Trim.{trim}
use schema_forge_backend.Domain.Attribute.{Attribute, is_documented as is_documented_attribute}
use schema_forge_backend.Domain.Entity.{Entity, is_documented as is_documented_entity}
use schema_forge_backend.Domain.Relationship.{Relationship, is_documented as is_documented_link}
use schema_forge_backend.Verifier.Documentation.{undocumented}
use schema_forge_backend.Verifier.Documentation.Laws.{lacks_documentation}
use schema_forge_backend.Verifier.WellFormed.{IsDescribed}
use schema_forge_backend.Verifier.WellFormed.Elements.{not_empty_iff}

columns_iff :
    (columns : List Attribute)
    → (is_empty (filter (λ a. not (is_documented_attribute a)) columns) ≡ true)
      ↔ All (λ a. trim a.description ≢ []) columns
unfolding is_documented_attribute
columns_iff [] = ((λ _. tt), (λ _. refl))
columns_iff (a ∷ columns) = ground (arith, not_empty_iff (trim a.description), columns_iff columns)

pub IsDescribed-iff : (e : Entity) → (lacks_documentation e ≡ false) ↔ IsDescribed e
unfolding is_documented_entity undocumented
IsDescribed-iff e = ground (arith, not_empty_iff (trim e.description), columns_iff e.attributes)

pub described_link_iff :
    (link : Relationship) → (not (is_documented_link link) ≡ false) ↔ (trim link.description ≢ [])
unfolding is_documented_link
described_link_iff link = ground (arith, not_empty_iff (trim link.description))
