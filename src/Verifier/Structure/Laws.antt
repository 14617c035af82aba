-- ===== src/Verifier/Structure/Laws.antt =====
-- What the structure checks add to a report.
use schema_forge_backend.Base.{
  Bool, true, not, ◌&&◌, ◌||◌, ◌≡◌, refl, ap, ◌∙◌, any, map, List, for_each,
}
use schema_forge_backend.Text.{Text}
use schema_forge_backend.Text.Case.{Unicode}
use schema_forge_backend.Domain.Attribute.{Attribute}
use schema_forge_backend.Domain.Entity.{Entity, has_primary_key}
use schema_forge_backend.Domain.Schema.{Schema}
use schema_forge_backend.Domain.Diagnostic.{Diagnostic, Report, error, an_error, about, at, push}
use schema_forge_backend.Domain.Diagnostic.Code
use schema_forge_backend.Domain.Diagnostic.Laws.{
  Flag, Adds, Adds-push, Adds-then, Adds-unless, Adds-cast, Adds-for_each_and, for_each-about,
}
use schema_forge_backend.Verifier.Structure.{
  folded, same_name_groups, at_first, report_entity_group, report_attribute_group,
  check_duplicate_names, check_primary_key, check_primary_keys,
}
use schema_forge_backend.Verifier.Structure.Groups.{repeated, same_name_groups-eq-repeated}

module _ (unicode : Unicode) where
  abbrev pub repeats_table : Schema → Bool
  repeats_table s = repeated (map (λ e. folded unicode e.name) s.entities)

  abbrev pub repeats_column : Entity → Bool
  repeats_column e = repeated (map (λ a. folded unicode a.name) e.attributes)

at_first-flag :
    (p : Flag) (group : List Entity) (d : Diagnostic)
    → p (at_first group d).code (at_first group d).severity ≡ p d.code d.severity
unfolding at_first at
at_first-flag p List.[] d = refl
at_first-flag p (List.◌∷◌ e _) d = refl

module _ (p : Flag) where
  report_entity_group-Adds :
      (group : List Entity)
      → Adds p (report_entity_group group) (true && p Code.duplicate_entity_name error)
  unfolding report_entity_group an_error
  report_entity_group-Adds group =
      Adds-cast p (push _)
        (for_each-about (λ (e : Entity). e.id) p group (at_first group _) ∙ at_first-flag p group _)
        (Adds-push p _)

  report_attribute_group-Adds :
      (e : Entity) (group : List Attribute)
      → Adds p (report_attribute_group e group) (true && p Code.duplicate_attribute_name error)
  unfolding report_attribute_group an_error at about
  report_attribute_group-Adds e group =
      Adds-cast p (push _) (for_each-about (λ (a : Attribute). a.id) p group _) (Adds-push p _)

  groups-Adds :
      {A : Type 0} (key_of : A → Text) (body : List A → Report → Report) (c : Bool)
      → ((group : List A) → Adds p (body group) (true && c))
      → (xs : List A)
      → Adds p (for_each (same_name_groups key_of xs) body) (repeated (map key_of xs) && c)
  groups-Adds key_of body c h xs =
      Adds-cast p (for_each (same_name_groups key_of xs) body)
        (ap (λ b. b && c) (same_name_groups-eq-repeated key_of xs))
        (Adds-for_each_and p body (λ _. true) c h (same_name_groups key_of xs))

  pub check_duplicate_names-Adds :
      (unicode : Unicode) (s : Schema)
      → Adds p (check_duplicate_names unicode s) (
          (repeats_table unicode s && p Code.duplicate_entity_name error)
          || (any (repeats_column unicode) s.entities && p Code.duplicate_attribute_name error))
  unfolding check_duplicate_names
  check_duplicate_names-Adds unicode s =
      Adds-then p
        (for_each (same_name_groups (λ e. folded unicode e.name) s.entities) report_entity_group)
        (for_each s.entities (λ e.
          for_each (same_name_groups (λ a. folded unicode a.name) e.attributes)
            (report_attribute_group e)))
        _ _
        (groups-Adds (λ e. folded unicode e.name) report_entity_group _ report_entity_group-Adds
          s.entities)
        (Adds-for_each_and p _ (repeats_column unicode) _
          (λ e.
            groups-Adds (λ a. folded unicode a.name) (report_attribute_group e) _
              (report_attribute_group-Adds e) e.attributes)
          s.entities)

  check_primary_key-Adds :
      (e : Entity)
      → Adds p (check_primary_key e) (not (has_primary_key e) && p Code.missing_primary_key error)
  unfolding check_primary_key at about an_error
  check_primary_key-Adds e = Adds-unless p (has_primary_key e) (push _) _ (Adds-push p _)

  pub check_primary_keys-Adds :
      (s : Schema)
      → Adds p
          (check_primary_keys s)
          (any (λ e. not (has_primary_key e)) s.entities && p Code.missing_primary_key error)
  unfolding check_primary_keys
  check_primary_keys-Adds s =
      Adds-for_each_and p check_primary_key (λ e. not (has_primary_key e)) _ check_primary_key-Adds
        s.entities
