-- ===== src/Exchange/Compare/Steps.antt =====
-- A comparison grows by three steps: a thing matches, a difference is recorded, or the fields of a
-- thing have changed. What the steps keep, the comparison of two tables keeps.
use schema_forge_backend.Base.{
  ℕ, Bool, true, false, ◌==◌, list_eq, nat_eq, ◌≢◌, if◌then◌else◌, List, [], ◌∷◌, Option, none,
  some, for_each, is_empty,
}
use schema_forge_backend.Text.{Text}
use schema_forge_backend.Text.Trim.{trim}
use schema_forge_backend.Domain.Attribute.{Attribute}
use schema_forge_backend.Domain.Entity.{Entity, same_position}
use schema_forge_backend.Domain.Comparison.{
  Category, Difference, Comparison, counts_mut, match_one, change_one, extend, record_one,
}
use schema_forge_backend.Exchange.Compare.Matching.{free_from, none_taken}
use schema_forge_backend.Exchange.Compare.Elements.{
  settle, describe, description, flagged, compare_keys, compare_attribute, attributes,
  match_attribute, Matched, column_path, column_fields, table_path, match_attributes,
  take_attribute, extra_column, position, compare_entity,
}

pub record KeptAt (I : Comparison → Type 0) (category : Category) : Type 0 where
  pub on_match : (c : Comparison) → I c → I (counts_mut category match_one c)
  pub on_record : (d : Difference) (c : Comparison) → I c → I (record_one category d c)
  pub on_change :
      (d : Difference) (found : List Difference) (c : Comparison)
      → I c
      → I (extend (d ∷ found) (counts_mut category change_one c))

pub for_each-keeps :
    {A S : Type 0} (J : S → Type 0) (body : A → S → S)
    → ((x : A) (s : S) → J s → J (body x s))
    → (xs : List A) (s : S) → J s
    → J (for_each xs body s)
for_each-keeps J body step [] s j = j
for_each-keeps J body step (x ∷ xs) s j = for_each-keeps J body step xs (body x s) (step x s j)

module _ (I : Comparison → Type 0) where
  pub if-keeps : (b : Bool) {x y : Comparison} → I x → I y → I (if b then x else y)
  if-keeps true i j = i
  if-keeps false i j = j

  settle-keeps :
      {category : Category}
      → KeptAt I category
      → (found : List Difference) (c : Comparison) → I c
      → I (settle category found c)
  unfolding settle
  settle-keeps kept [] c i = kept.on_match c i
  settle-keeps kept (d ∷ found) c i = kept.on_change d found c i

module _ (I : Comparison → Type 0) (kept : (k : Category) → k ≢ Category.tables → KeptAt I k) where
  columns_kept : KeptAt I Category.columns
  columns_kept = kept Category.columns (λ e. cc)

  keys_kept : KeptAt I Category.keys
  keys_kept = kept Category.keys (λ e. cc)

  descriptions_kept : KeptAt I Category.descriptions
  descriptions_kept = kept Category.descriptions (λ e. cc)

  positions_kept : KeptAt I Category.positions
  positions_kept = kept Category.positions (λ e. cc)

  pub description-keeps :
      (path expected actual : Text) (c : Comparison) → I c → I (description path expected actual c)
  unfolding description describe
  description-keeps path expected actual c i =
      let k = descriptions_kept in
      if-keeps I (is_empty (trim expected))
        (if-keeps I (is_empty (trim actual)) i (k.on_record _ c i))
        (if-keeps I (is_empty (trim actual)) (k.on_record _ c i)
          (if-keeps I (trim expected == trim actual) (k.on_match c i) (k.on_record _ c i)))

  keys-keeps :
      (path : Text) (expected actual : Attribute) (c : Comparison)
      → I c
      → I (compare_keys path expected actual c)
  unfolding compare_keys
  keys-keeps path expected actual c i =
      let k = keys_kept in
      if-keeps I (flagged expected)
        (if-keeps I (flagged actual) (settle-keeps I k _ c i) (k.on_record _ c i))
        (if-keeps I (flagged actual) (k.on_record _ c i) i)

  attribute-keeps :
      (table : Text) (expected actual : Attribute) (c : Comparison)
      → I c
      → I (compare_attribute table expected actual c)
  unfolding compare_attribute
  attribute-keeps table expected actual c i =
      let path = column_path table expected.name in
      description-keeps path expected.description actual.description _ (
        keys-keeps path expected actual _
          (settle-keeps I columns_kept (column_fields path expected actual) c i))

  match_attribute-keeps :
      (path : Text) (left : Attribute) (found : Option (ℕ × Attribute)) (m : Matched)
      → I m.comparison
      → I (match_attribute path left found m).comparison
  unfolding match_attribute
  match_attribute-keeps path left none m i = columns_kept.on_record _ _ i
  match_attribute-keeps path left (some (at, right)) m i = attribute-keeps path left right _ i

  match_attributes-keeps :
      (path : Text) (expected actual : List Attribute) (c : Comparison)
      → I c
      → I (match_attributes path expected actual c).comparison
  unfolding match_attributes take_attribute
  match_attributes-keeps path expected actual c i =
      for_each-keeps (λ (m : Matched). I m.comparison) (take_attribute path actual)
        (λ left m. match_attribute-keeps path left _ m) expected
        (record { taken = none_taken actual; comparison = c }) i

  extra_column-keeps :
      (path : Text) (right : ℕ × Attribute) (c : Comparison) → I c → I (extra_column path right c)
  unfolding extra_column
  extra_column-keeps path (at, right) c i = columns_kept.on_record _ c i

  attributes-keeps :
      (path : Text) (expected actual : List Attribute) (c : Comparison)
      → I c
      → I (attributes path expected actual c)
  unfolding attributes
  attributes-keeps path expected actual c i =
      for_each-keeps I (extra_column path) (extra_column-keeps path)
        (free_from 0 (match_attributes path expected actual c).taken actual)
        (match_attributes path expected actual c).comparison
        (match_attributes-keeps path expected actual c i)

  position-keeps :
      (show_f64 : ℕ → Text) (path : Text) (expected actual : Entity) (c : Comparison)
      → I c
      → I (position show_f64 path expected actual c)
  unfolding position
  position-keeps show_f64 path expected actual c i =
      if-keeps I (same_position expected.position actual.position) (positions_kept.on_match c i)
        (positions_kept.on_record _ c i)

  pub compare_entity-keeps :
      (show_f64 : ℕ → Text) (include_positions : Bool) (expected actual : Entity) (c : Comparison)
      → I c
      → I (compare_entity show_f64 include_positions expected actual c)
  unfolding compare_entity
  compare_entity-keeps show_f64 include_positions expected actual c i =
      let path = table_path expected.name in
      let described = description path expected.description actual.description c in
      let described_i = description-keeps path expected.description actual.description c i in
      attributes-keeps path expected.attributes actual.attributes
        (if include_positions then position show_f64 path expected actual described else described)
        (if-keeps I include_positions
          (position-keeps show_f64 path expected actual described described_i) described_i)
