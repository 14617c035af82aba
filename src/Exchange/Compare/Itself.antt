-- ===== src/Exchange/Compare/Itself.antt =====
-- A schema compared with itself: nothing is listed as different.
use schema_forge_backend.Base.{
  ℕ, Bool, true, false, ◌||◌, list_eq, nat_eq, ◌≡◌, refl, sym, ap, ◌∙◌, List, [], ◌∷◌, ◌++◌, map,
  some, for_each, arith, subst, find, any, All, append_assoc,
}
use schema_forge_backend.Text.{Text}
use schema_forge_backend.Domain.Entity.{Entity, same_position}
use schema_forge_backend.Domain.Schema.{SchemaDraft}
use schema_forge_backend.Domain.Comparison.{
  Category, Difference, Comparison, is_equal, nothing_compared,
}
use schema_forge_backend.Exchange.Compare.Matching.{none_taken}
use schema_forge_backend.Exchange.Compare.InOrder.{
  for_each-prefix, TakenUpTo, taken_start, found_next, taken_next, all_found,
}
use schema_forge_backend.Exchange.Compare.Elements.{same, compare_entity}
use schema_forge_backend.Exchange.Compare.Alike.{
  same_refl, matched-differences, compare_entity-same,
}
use schema_forge_backend.Exchange.Compare.Linked.{relationships-same}
use schema_forge_backend.Exchange.Compare.Totals.{compare-is_equal_iff}
use schema_forge_backend.Exchange.Compare.Drafts.{
  match_entity, take_entity, match_entities, extra_table, entities, Paired, references,
  match_reference, find_reference, extra_reference, foreign_keys, compare_pair, compare,
}

-- Each table with itself.
abbrev twice : List Entity → List (Entity × Entity)
twice xs = map (λ e. (e, e)) xs

abbrev InStep : List Entity → List Difference → List Entity → Paired → Type 0
InStep xs ds pre p =
    TakenUpTo xs pre p.matched.taken
    × (p.matched.comparison.differences ≡ ds)
    × (p.pairs ≡ twice pre)

twice-append : (pre : List Entity) (x : Entity) → twice pre ++ (x, x) ∷ [] ≡ twice (pre ++ x ∷ [])
twice-append [] x = refl
twice-append (y ∷ pre) x = ap (λ ps. (y, y) ∷ ps) (twice-append pre x)

take_entity-InStep :
    (xs : List Entity) (ds : List Difference) (pre : List Entity) (x : Entity) (suf : List Entity)
    (p : Paired)
    → xs ≡ pre ++ x ∷ suf
    → InStep xs ds pre p
    → InStep xs ds (pre ++ x ∷ []) (take_entity xs x p)
unfolding take_entity match_entity
take_entity-InStep xs ds pre x suf p e (up_to, unchanged, pairs) =
    let taken = p.matched.taken in
    let found =
      found_next (λ right. same right.name x.name) xs pre x suf taken e up_to (same_refl x.name) in
    rw found (
      taken_next xs pre x suf taken e up_to,
      matched-differences Category.tables p.matched.comparison ∙ unchanged,
      ap (λ ps. ps ++ (x, x) ∷ []) pairs ∙ twice-append pre x,
    )

entities-same :
    (d : SchemaDraft) (c : Comparison)
    → ((entities d d c).0 ≡ twice d.entities) × ((entities d d c).1.differences ≡ c.differences)
unfolding entities match_entities
entities-same d c =
    let xs = d.entities in
    let start : Paired = record {
      matched = record { taken = none_taken xs; comparison = c };
      pairs = [];
    } in
    let p = for_each xs (take_entity xs) start in
    let (up_to, unchanged, pairs) =
      for_each-prefix (InStep xs c.differences) (take_entity xs) xs
        (take_entity-InStep xs c.differences) [] xs start refl (taken_start xs, refl, refl) in
    (
      pairs,
      ap (λ rest. (for_each rest extra_table p.matched.comparison).differences)
            (all_found xs p.matched.taken up_to)
          ∙ unchanged,
    )

-- Where no position holds a NaN, every table agrees with itself.
pairs-same :
    (show_f64 : ℕ → Text) (include_positions : Bool) (xs : List Entity) (c : Comparison)
    → All (λ e. same_position e.position e.position ≡ true) xs
    → (for_each (twice xs) (compare_pair show_f64 include_positions) c).differences ≡ c.differences
unfolding compare_pair
pairs-same show_f64 include_positions [] c h = refl
pairs-same show_f64 include_positions (x ∷ xs) c h =
    pairs-same show_f64 include_positions xs (compare_entity show_f64 include_positions x x c) h.1
    ∙ compare_entity-same show_f64 include_positions x c h.0

-- No two foreign keys are held by columns of one name, letter case aside.
abbrev pub Distinct : List (Text × Text) → Type 0
Distinct [] = Unit
Distinct ((holder, _) ∷ rest) = All (λ r. same holder r.0 ≡ false) rest × Distinct rest

find_itself :
    (pre : List (Text × Text)) (r : Text × Text) (suf : List (Text × Text))
    → Distinct (pre ++ r ∷ suf)
    → find (λ (name, _). same name r.0) (pre ++ r ∷ suf) ≡ some r
find_itself [] r suf h = rw (same_refl r.0) refl
find_itself (y ∷ pre) r suf h = rw (head_other pre h.0) (find_itself pre r suf h.1)
  where
    head_other :
        (ys : List (Text × Text))
        → All (λ x. same y.0 x.0 ≡ false) (ys ++ r ∷ suf)
        → same y.0 r.0 ≡ false
    head_other [] k = k.0
    head_other (z ∷ ys) k = head_other ys k.1

references-same :
    (all_of : List (Text × Text)) (pre suf : List (Text × Text)) (c : Comparison)
    → Distinct all_of
    → all_of ≡ pre ++ suf
    → (for_each suf (find_reference all_of) c).differences ≡ c.differences
unfolding find_reference match_reference
references-same all_of pre [] c h e = refl
references-same all_of pre (r ∷ suf) c h e =
    let found : find (λ (name, _). same name r.0) all_of ≡ some r =
      subst (λ rs. find (λ (name, _). same name r.0) rs ≡ some r) (sym e)
        (find_itself pre r suf (subst Distinct e h)) in
    let here : (find_reference all_of r c).differences ≡ c.differences =
      rw (found, same_refl r.1) (matched-differences Category.foreign_keys c) in
    references-same all_of (pre ++ r ∷ []) suf (find_reference all_of r c) h
      (e ∙ sym (append_assoc pre (r ∷ []) suf))
    ∙ here

any_itself :
    (pre : List (Text × Text)) (r : Text × Text) (suf : List (Text × Text))
    → any (λ (name, _). same name r.0) (pre ++ r ∷ suf) ≡ true
any_itself [] r suf = rw (same_refl r.0) refl
any_itself (y ∷ pre) r suf = rw (any_itself pre r suf) (or-true (same y.0 r.0))
  where
    or-true : (b : Bool) → (b || true) ≡ true
    or-true true = refl
    or-true false = refl

none_extra :
    (all_of : List (Text × Text)) (pre suf : List (Text × Text)) (c : Comparison)
    → all_of ≡ pre ++ suf
    → (for_each suf (extra_reference all_of) c).differences ≡ c.differences
unfolding extra_reference
none_extra all_of pre [] c e = refl
none_extra all_of pre (r ∷ suf) c e =
    let known : any (λ (name, _). same name r.0) all_of ≡ true =
      subst (λ rs. any (λ (name, _). same name r.0) rs ≡ true) (sym e) (any_itself pre r suf) in
    let here : (extra_reference all_of r c).differences ≡ c.differences = rw known refl in
    none_extra all_of (pre ++ r ∷ []) suf (extra_reference all_of r c)
      (e ∙ sym (append_assoc pre (r ∷ []) suf))
    ∙ here

foreign_keys-same :
    (d : SchemaDraft) (c : Comparison)
    → Distinct (references d)
    → (foreign_keys d d c).differences ≡ c.differences
unfolding foreign_keys
foreign_keys-same d c h =
    let all_of = references d in
    none_extra all_of [] all_of (for_each all_of (find_reference all_of) c) refl
    ∙ references-same all_of [] all_of c h refl

-- A schema in which no position holds a NaN and no two foreign keys are held by columns of one name,
-- compared with itself, lists no difference and counts as equal.
pub compare-itself :
    (show_f64 : ℕ → Text) (d : SchemaDraft) (include_positions : Bool)
    → All (λ e. same_position e.position e.position ≡ true) d.entities
    → Distinct (references d)
    → ((compare show_f64 d d include_positions).differences ≡ [])
      × (is_equal (compare show_f64 d d include_positions) ≡ true)
unfolding compare nothing_compared
compare-itself show_f64 d include_positions placed distinct =
    let (pairs, counted) = entities d d nothing_compared in
    let both = entities-same d nothing_compared in
    let compared = for_each pairs (compare_pair show_f64 include_positions) counted in
    let keyed = foreign_keys d d compared in
    let alike : compared.differences ≡ counted.differences =
      ap (λ ps. (for_each ps (compare_pair show_f64 include_positions) counted).differences) both.0
      ∙ pairs-same show_f64 include_positions d.entities counted placed in
    let nothing : (compare show_f64 d d include_positions).differences ≡ [] =
      relationships-same d keyed ∙ foreign_keys-same d compared distinct ∙ alike ∙ both.1 in
    (
      nothing,
      (compare-is_equal_iff show_f64 d d include_positions (ground (arith, nothing))).1 nothing,
    )
