-- ===== src/Exchange/Compare/Alike.antt =====
-- A table compared with itself adds no difference.
use schema_forge_backend.Base.{
  ℕ, Bool, true, false, ==_refl, list_eq, nat_eq, ◌≡◌, refl, ap, ◌∙◌, List, [], ◌∷◌, ◌++◌, for_each,
  arith, if◌then◌else◌,
}
use schema_forge_backend.Text.{Text}
use schema_forge_backend.Text.Trim.{trim}
use schema_forge_backend.Text.Case.{eq_ignore_ascii_case_refl}
use schema_forge_backend.Domain.DataType.{same_data_type_refl}
use schema_forge_backend.Domain.Attribute.{Attribute}
use schema_forge_backend.Domain.Entity.{Entity, same_position}
use schema_forge_backend.Domain.Comparison.{Category, Difference, Comparison, counts_mut, match_one}
use schema_forge_backend.Exchange.Compare.Matching.{none_taken}
use schema_forge_backend.Exchange.Compare.InOrder.{
  for_each-prefix, TakenUpTo, taken_start, found_next, taken_next, all_found,
}
use schema_forge_backend.Exchange.Compare.Elements.{
  same, same_bool, optional, settle, describe, description, flagged, key_fields, compare_keys,
  column_fields, compare_attribute, column_path, table_path, attributes, match_attribute,
  match_attributes, take_attribute, extra_column, Matched, position, compare_entity,
}

pub same_refl : (name : Text) → same name name ≡ true
unfolding same
same_refl name = eq_ignore_ascii_case_refl name

pub matched-differences :
    (category : Category) (c : Comparison)
    → (counts_mut category match_one c).differences ≡ c.differences
unfolding counts_mut
matched-differences Category.tables c = refl
matched-differences _ c = refl

if-nil {ℓ} : {A : Type ℓ} (b : Bool) (xs : List A) → b ≡ true → (if b then [] else xs) ≡ []
if-nil b xs h = rw h refl

append-nils {ℓ} : {A : Type ℓ} (xs ys : List A) → xs ≡ [] → ys ≡ [] → xs ++ ys ≡ []
append-nils xs ys h k = rw (h, k) refl

same_bool_refl : (b : Bool) → same_bool b b ≡ true
same_bool_refl true = refl
same_bool_refl false = refl

key_fields-same : (path : Text) (a : Attribute) → key_fields path a a ≡ []
unfolding key_fields
key_fields-same path a =
    append-nils _ _ (if-nil _ _ (same_bool_refl a.primary_key))
      (if-nil _ _ (same_bool_refl a.unique))

column_fields-same : (path : Text) (a : Attribute) → column_fields path a a ≡ []
unfolding column_fields
column_fields-same path a = append-nils _ _ (if-nil _ _ (same_data_type_refl a.data_type)) (
    append-nils _ _ (if-nil _ _ (same_bool_refl a.nullable))
      (if-nil _ _ (==_refl (optional a.default_value))))

settle-none :
    (category : Category) (found : List Difference) (c : Comparison)
    → found ≡ []
    → (settle category found c).differences ≡ c.differences
unfolding settle
settle-none category [] c e = matched-differences category c
settle-none category (d ∷ found) c e = cc

pub description-same :
    (path text : Text) (c : Comparison) → (description path text text c).differences ≡ c.differences
unfolding description describe
description-same path text c =
    ground (arith, ==_refl (trim text), matched-differences Category.descriptions c)

-- Only the branches where both tests agree are taken.
if-agree :
    (b : Bool) (x y z w : Comparison) (ds : List Difference)
    → x.differences ≡ ds
    → w.differences ≡ ds
    → (if b then (if b then x else y) else (if b then z else w)).differences ≡ ds
if-agree true x y z w ds e f = e
if-agree false x y z w ds e f = f

compare_keys-same :
    (path : Text) (a : Attribute) (c : Comparison)
    → (compare_keys path a a c).differences ≡ c.differences
unfolding compare_keys
compare_keys-same path a c =
    if-agree (flagged a) _ _ _ _ c.differences
      (settle-none Category.keys (key_fields path a a) c (key_fields-same path a)) refl

compare_attribute-same :
    (table : Text) (a : Attribute) (c : Comparison)
    → (compare_attribute table a a c).differences ≡ c.differences
unfolding compare_attribute
compare_attribute-same table a c =
    let path = column_path table a.name in
    let settled = settle Category.columns (column_fields path a a) c in
    description-same path a.description (compare_keys path a a settled)
    ∙ compare_keys-same path a settled
    ∙ settle-none Category.columns (column_fields path a a) c (column_fields-same path a)

-- After the columns of `pre`, which all have taken their own copies.
abbrev InStep : List Attribute → List Difference → List Attribute → Matched → Type 0
InStep xs ds pre m = TakenUpTo xs pre m.taken × (m.comparison.differences ≡ ds)

take_attribute-InStep :
    (path : Text) (xs : List Attribute) (ds : List Difference) (pre : List Attribute)
    (x : Attribute) (suf : List Attribute) (m : Matched)
    → xs ≡ pre ++ x ∷ suf
    → InStep xs ds pre m
    → InStep xs ds (pre ++ x ∷ []) (take_attribute path xs x m)
unfolding take_attribute match_attribute
take_attribute-InStep path xs ds pre x suf m e (up_to, unchanged) =
    let found =
      found_next (λ right. same right.name x.name) xs pre x suf m.taken e up_to
        (same_refl x.name) in
    rw found (
      taken_next xs pre x suf m.taken e up_to,
      compare_attribute-same path x m.comparison ∙ unchanged,
    )

attributes-same :
    (path : Text) (xs : List Attribute) (c : Comparison)
    → (attributes path xs xs c).differences ≡ c.differences
unfolding attributes match_attributes
attributes-same path xs c =
    let start : Matched = record { taken = none_taken xs; comparison = c } in
    let m = for_each xs (take_attribute path xs) start in
    let (up_to, unchanged) =
      for_each-prefix (InStep xs c.differences) (take_attribute path xs) xs
        (take_attribute-InStep path xs c.differences) [] xs start refl (taken_start xs, refl) in
    ap (λ rest. (for_each rest (extra_column path) m.comparison).differences)
      (all_found xs m.taken up_to)
    ∙ unchanged

position-same :
    (show_f64 : ℕ → Text) (path : Text) (e : Entity) (c : Comparison)
    → same_position e.position e.position ≡ true
    → (position show_f64 path e e c).differences ≡ c.differences
unfolding position
position-same show_f64 path e c h = rw h (matched-differences Category.positions c)

if-same :
    (b : Bool) (x y : Comparison) (ds : List Difference)
    → x.differences ≡ ds
    → y.differences ≡ ds
    → (if b then x else y).differences ≡ ds
if-same true x y ds e f = e
if-same false x y ds e f = f

pub compare_entity-same :
    (show_f64 : ℕ → Text) (include_positions : Bool) (e : Entity) (c : Comparison)
    → same_position e.position e.position ≡ true
    → (compare_entity show_f64 include_positions e e c).differences ≡ c.differences
unfolding compare_entity
compare_entity-same show_f64 include_positions e c h =
    let path = table_path e.name in
    let described = description path e.description e.description c in
    let same_text = description-same path e.description c in
    let placed = position show_f64 path e e described in
    attributes-same path e.attributes (if include_positions then placed else described)
    ∙ if-same include_positions placed described c.differences
        (position-same show_f64 path e described h ∙ same_text) same_text
