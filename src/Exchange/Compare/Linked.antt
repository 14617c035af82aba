-- ===== src/Exchange/Compare/Linked.antt =====
-- The relationships of a schema, matched against themselves.
use schema_forge_backend.Base.{
  true, list_eq, nat_eq, ◌≡◌, refl, sym, ap, ap₂, ◌∙◌, List, [], ◌∷◌, ◌++◌, map, some, for_each,
  arith, set, length, subst, zip, get_elem?,
}
use schema_forge_backend.Text.{Text}
use schema_forge_backend.Domain.Relationship.{Relationship, Cardinality, same_cardinality}
use schema_forge_backend.Domain.Schema.{SchemaDraft}
use schema_forge_backend.Domain.Comparison.{Category, Difference, Comparison}
use schema_forge_backend.Exchange.Compare.Matching.{none_taken}
use schema_forge_backend.Exchange.Compare.InOrder.{
  for_each-prefix, TakenUpTo, taken_start, found_next, taken_next, all_found, get_next,
}
use schema_forge_backend.Exchange.Compare.Elements.{same, Matched}
use schema_forge_backend.Exchange.Compare.Alike.{same_refl, matched-differences, description-same}
use schema_forge_backend.Exchange.Compare.Drafts.{
  links, ends_of, pair_links, match_link, take_link, match_links, extra_link_at, relationships,
}

map-append {ℓ} :
    {A B : Type ℓ} (f : A → B) (xs ys : List A) → map f (xs ++ ys) ≡ map f xs ++ map f ys
map-append f [] ys = refl
map-append f (x ∷ xs) ys = ap (λ zs. f x ∷ zs) (map-append f xs ys)

length-map {ℓ} :
    {A B C : Type ℓ} (f : A → B) (g : A → C) (xs : List A) → length (map f xs) ≡ length (map g xs)
length-map f g [] = refl
length-map f g (x ∷ xs) = omega (arith, length-map f g xs)

first-zip :
    {A B : Type 0} (f : A → B) (xs : List A) → map (λ (p : A × B). p.0) (zip xs (map f xs)) ≡ xs
first-zip f [] = refl
first-zip f (x ∷ xs) = ap (λ zs. x ∷ zs) (first-zip f xs)

second-zip :
    {A B : Type 0} (f : A → B) (xs : List A)
    → map (λ (p : A × B). p.1) (zip xs (map f xs)) ≡ map f xs
second-zip f [] = refl
second-zip f (x ∷ xs) = ap (λ zs. f x ∷ zs) (second-zip f xs)

same_cardinality_refl : (k : Cardinality) → same_cardinality k k ≡ true
unfolding same_cardinality
same_cardinality_refl Cardinality.one_to_one = refl
same_cardinality_refl Cardinality.one_to_many = refl
same_cardinality_refl Cardinality.many_to_many = refl

pair_links-same :
    (path : Text) (link : Relationship) (c : Comparison)
    → (pair_links path link (some link) c).differences ≡ c.differences
unfolding pair_links
pair_links-same path link c =
    description-same path link.description _
    ∙ (rw (same_cardinality_refl link.cardinality) (matched-differences Category.relationships c))

-- The links with the texts of their ends, as `zip` pairs them.
abbrev Links : Type 0
Links = List (Relationship × Text)

abbrev ends : Links → List Text
ends ls = map (λ (l : Relationship × Text). l.1) ls

abbrev held : Links → List Relationship
held ls = map (λ (l : Relationship × Text). l.0) ls

abbrev InStep : SchemaDraft → List Difference → Links → Matched → Type 0
InStep d ds pre m = TakenUpTo (links d) (ends pre) m.taken × (m.comparison.differences ≡ ds)

take_link-InStep :
    (d : SchemaDraft) (ds : List Difference) (pre : Links) (x : Relationship × Text) (suf : Links)
    (m : Matched)
    → zip d.relationships (links d) ≡ pre ++ x ∷ suf
    → InStep d ds pre m
    → InStep d ds (pre ++ x ∷ []) (take_link d x m)
unfolding take_link match_link links
take_link-InStep d ds pre x suf m e (up_to, unchanged) =
    let texts : links d ≡ ends pre ++ x.1 ∷ ends suf =
      sym (second-zip (ends_of d) d.relationships) ∙ ap ends e ∙ map-append _ pre (x ∷ suf) in
    let owners : d.relationships ≡ held pre ++ x.0 ∷ held suf =
      sym (first-zip (ends_of d) d.relationships) ∙ ap held e ∙ map-append _ pre (x ∷ suf) in
    let found =
      found_next (λ other. same other x.1) (links d) (ends pre) x.1 (ends suf) m.taken texts up_to
        (same_refl x.1) in
    let itself : get_elem? d.relationships (length (ends pre)) ≡ some x.0 =
      ap₂ (λ rs n. get_elem? rs n) owners (length-map _ _ pre)
      ∙ get_next (held pre) x.0 (held suf) in
    rw (found, itself)
      (
        subst (λ ts. TakenUpTo (links d) ts (set m.taken (length (ends pre)) true))
            (sym (map-append _ pre (x ∷ [])))
            (taken_next (links d) (ends pre) x.1 (ends suf) m.taken texts up_to),
        pair_links-same _ x.0 m.comparison ∙ unchanged,
      )

pub relationships-same :
    (d : SchemaDraft) (c : Comparison) → (relationships d d c).differences ≡ c.differences
unfolding relationships match_links
relationships-same d c =
    let start : Matched = record { taken = none_taken (links d); comparison = c } in
    let paired = zip d.relationships (links d) in
    let m = for_each paired (take_link d) start in
    let (up_to, unchanged) =
      for_each-prefix (InStep d c.differences) (take_link d) paired
        (take_link-InStep d c.differences) [] paired start refl (taken_start (links d), refl) in
    let whole : TakenUpTo (links d) (links d) m.taken =
      subst (λ ts. TakenUpTo (links d) ts m.taken) (second-zip (ends_of d) d.relationships) up_to in
    ap (λ rest. (for_each rest (extra_link_at d) m.comparison).differences)
      (all_found (links d) m.taken whole)
    ∙ unchanged
