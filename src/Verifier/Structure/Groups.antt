-- ===== src/Verifier/Structure/Groups.antt =====
-- When elements are grouped by name, some group has two members exactly when a name that is not
-- blank occurs twice.
use schema_forge_backend.Base.{
  Bool, true, false, not, ◌&&◌, ◌||◌, ◌==◌, nat_eq, list_eq, ltb, is_empty, List, [], ◌∷◌, map,
  filter, for_each, length, any, ◌≡◌, refl, ap, ◌∙◌, arith, ==_iff, Bool-cases, inl, inr, ◌<◌,
  length-append,
}
use schema_forge_backend.Text.{Text}
use schema_forge_backend.Domain.Diagnostic.Laws.{any-and}
use schema_forge_backend.Verifier.Structure.{join_group, group_item, same_name_groups}

-- A key that is not empty and occurs again later.
abbrev pub repeated : List Text → Bool
repeated [] = false
repeated (k ∷ ks) = (not (is_empty k) && any (λ j. j == k) ks) || repeated ks

abbrev Groups : Type 0 → Type 0
Groups A = List (Text × List A)

module _ {A : Type 0} where
  abbrev has_key : Text → Groups A → Bool
  has_key k gs = any (λ g. g.0 == k) gs

  abbrev multiple : Groups A → Bool
  multiple gs = any (λ g. ltb 1 (length g.1)) gs

  abbrev NonEmpty : Groups A → Type 0
  NonEmpty [] = Unit
  NonEmpty ((k, ms) ∷ gs) = (0 < length ms) × NonEmpty gs

  join-NonEmpty : (k : Text) (x : A) (gs : Groups A) → NonEmpty gs → NonEmpty (join_group k x gs)
  unfolding join_group
  join-NonEmpty k x [] h = (omega arith, tt)
  join-NonEmpty k x ((j, ms) ∷ gs) h =
      ground (arith, join-NonEmpty k x gs h.1, length-append {0} ms (x ∷ []))

  join-multiple :
      (k : Text) (x : A) (gs : Groups A)
      → NonEmpty gs
      → multiple (join_group k x gs) ≡ (multiple gs || has_key k gs)
  unfolding join_group
  join-multiple k x [] h = refl
  join-multiple k x ((j, ms) ∷ gs) h =
      ground (arith, join-multiple k x gs h.1, length-append {0} ms (x ∷ []))

  join-has_key :
      (k j : Text) (x : A) (gs : Groups A)
      → has_key j (join_group k x gs) ≡ (has_key j gs || (k == j))
  unfolding join_group
  join-has_key k j x [] = ground arith
  join-has_key k j x ((i, ms) ∷ gs) =
      ground (arith, join-has_key k j x gs, ==_iff i k, ==_iff k j, ==_iff i j)

  any-join :
      (key_of : A → Text) (k : Text) (x : A) (gs : Groups A) (ys : List A)
      → is_empty k ≡ false
      → any (λ y. not (is_empty (key_of y)) && has_key (key_of y) (join_group k x gs)) ys ≡ (
          any (λ y. not (is_empty (key_of y)) && has_key (key_of y) gs) ys
          || any (λ j. j == k) (map key_of ys))
  any-join key_of k x gs [] h = refl
  any-join key_of k x gs (y ∷ ys) h = ground (
    arith,
    any-join key_of k x gs ys h,
    join-has_key k (key_of y) x gs,
    ==_iff k (key_of y),
    ==_iff (key_of y) k,
    λ (e : k ≡ key_of y). ap {A = Text} {B = Bool} is_empty e,
  )

  collect-multiple :
      (key_of : A → Text) (xs : List A) (gs : Groups A)
      → NonEmpty gs
      → multiple (for_each xs (group_item key_of) gs) ≡ (
          multiple gs
          || any (λ y. not (is_empty (key_of y)) && has_key (key_of y) gs) xs
          || repeated (map key_of xs))
  unfolding group_item
  collect-multiple key_of [] gs h = ground arith
  collect-multiple key_of (x ∷ xs) gs h = elim (Bool-cases (is_empty (key_of x))) [
    | inl blank ↦ rw blank (collect-multiple key_of xs gs h)
    | inr named ↦ rw named (
        ground (
          arith,
          collect-multiple key_of xs (join_group (key_of x) x gs) (join-NonEmpty (key_of x) x gs h),
          join-multiple (key_of x) x gs h,
          any-join key_of (key_of x) x gs xs named,
        ))
  ]

any-filter-map {ℓ} :
    {A B : Type ℓ} (q : B → Bool) (f : A → B) (xs : List A)
    → any (λ _. true) (filter q (map f xs)) ≡ any (λ x. q (f x)) xs
any-filter-map q f [] = refl
any-filter-map q f (x ∷ xs) = ground (arith, any-filter-map q f xs)

-- Grouping elements by a key yields a group of two or more exactly when a key that is not empty
-- occurs twice.
pub same_name_groups-eq-repeated :
    {A : Type 0} (key_of : A → Text) (xs : List A)
    → any (λ _. true) (same_name_groups key_of xs) ≡ repeated (map key_of xs)
unfolding same_name_groups
same_name_groups-eq-repeated key_of xs =
    any-filter-map (λ members. ltb 1 (length members)) (λ g. g.1)
      (for_each xs (group_item key_of) [])
    ∙ ground
        (arith, collect-multiple key_of xs [] tt, any-and (λ y. not (is_empty (key_of y))) false xs)
