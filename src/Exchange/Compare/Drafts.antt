-- ===== src/Exchange/Compare/Drafts.antt =====
-- `compare` of src/module/schema/core/service/exchange/compare.rs, with its tables, foreign keys and
-- relationships.
use schema_forge_backend.Base.{
  ℕ, Bool, true, ◌==◌, nat_eq, list_eq, if◌then◌else◌, List, [], ◌∷◌, ◌++◌, map, flat_map, Option,
  none, some, find, any, for_each, set, zip, get_elem?,
}
use schema_forge_backend.Text.{Text, lit}
use schema_forge_backend.Domain.Attribute.{Attribute, ForeignKeyRef}
use schema_forge_backend.Domain.Entity.{Entity, attribute}
use schema_forge_backend.Domain.Relationship.{Relationship, as_str, same_cardinality}
use schema_forge_backend.Domain.Schema.{SchemaDraft}
use schema_forge_backend.Domain.Comparison.{
  Category, Comparison, nothing_compared, missing_at, extra_at, changed_at, counts_mut, match_one,
  record_one,
}
use schema_forge_backend.Exchange.Compare.Matching.{find_free, free_from, none_taken}
use schema_forge_backend.Exchange.Compare.Elements.{
  same, table_path, description, compare_entity, Matched,
}

-- The tables so far: what is taken, what was counted, and the pairs.
pub record Paired : Type 0 where
  pub matched : Matched
  pub pairs : List (Entity × Entity)

unfoldable pub match_entity : Entity → Option (ℕ × Entity) → Paired → Paired
unfolding record_one missing_at counts_mut match_one table_path
match_entity left none p = record p {
  matched = record {
    taken = p.matched.taken;
    comparison =
        record_one Category.tables (missing_at (table_path left.name) left.name)
          p.matched.comparison;
  };
}
match_entity left (some (at, right)) p = record {
  matched = record {
    taken = set p.matched.taken at true;
    comparison = counts_mut Category.tables match_one p.matched.comparison;
  };
  pairs = p.pairs ++ (left, right) ∷ [];
}

unfoldable pub take_entity : List Entity → Entity → Paired → Paired
unfolding find_free match_entity same
take_entity actual left p =
    match_entity left (find_free (λ right. same right.name left.name) p.matched.taken actual) p

unfoldable pub match_entities : List Entity → List Entity → Comparison → Paired
unfolding take_entity
match_entities expected actual c =
    for_each expected (take_entity actual)
      (record { matched = record { taken = none_taken actual; comparison = c }; pairs = [] })

unfoldable pub extra_table : ℕ × Entity → Comparison → Comparison
unfolding record_one extra_at table_path
extra_table (_, right) c =
    record_one Category.tables (extra_at (table_path right.name) right.name) c

-- The pairs, and the comparison with the tables counted.
unfoldable pub entities :
    SchemaDraft → SchemaDraft → Comparison → List (Entity × Entity) × Comparison
unfolding match_entities free_from extra_table
entities expected actual c =
    let p = match_entities expected.entities actual.entities c in
    (
      p.pairs,
      for_each (free_from 0 p.matched.taken actual.entities) extra_table p.matched.comparison,
    )

attribute_end : Entity → Text → Option Attribute → Text
unfolding lit
attribute_end e attribute_id (some a) = e.name ++ (lit "." ++ a.name)
attribute_end e attribute_id none = e.name ++ (lit "." ++ attribute_id)

entity_end : Text → Text → Option Entity → Text
unfolding attribute_end attribute lit
entity_end entity_id attribute_id none = entity_id ++ (lit "." ++ attribute_id)
entity_end entity_id attribute_id (some e) = attribute_end e attribute_id (attribute e attribute_id)

unfoldable pub point_at : SchemaDraft → Text → Text → Text
unfolding entity_end
point_at draft entity_id attribute_id =
    entity_end entity_id attribute_id (find (λ e. e.id == entity_id) draft.entities)

reference_of : SchemaDraft → Entity → Attribute → Option ForeignKeyRef → List (Text × Text)
unfolding point_at lit
reference_of draft e a none = []
reference_of draft e a (some reference) =
    (e.name ++ (lit "." ++ a.name), point_at draft reference.entity_id reference.attribute_id) ∷ []

unfoldable pub references : SchemaDraft → List (Text × Text)
unfolding reference_of
references draft =
    flat_map (λ e. flat_map (λ a. reference_of draft e a a.foreign_key) e.attributes) draft.entities

key_path : Text → Text
unfolding lit
key_path holder = holder ++ lit ".foreignKey"

unfoldable pub match_reference : Text → Text → Option (Text × Text) → Comparison → Comparison
unfolding key_path record_one missing_at changed_at counts_mut match_one same
match_reference holder target none c =
    record_one Category.foreign_keys (missing_at (key_path holder) target) c
match_reference holder target (some (_, found)) c =
    if same found target
    then counts_mut Category.foreign_keys match_one c
    else record_one Category.foreign_keys (changed_at (key_path holder) target found) c

unfoldable pub extra_reference : List (Text × Text) → Text × Text → Comparison → Comparison
unfolding key_path record_one extra_at same
extra_reference left (holder, target) c =
    if any (λ (name, _). same name holder) left
    then c
    else record_one Category.foreign_keys (extra_at (key_path holder) target) c

unfoldable pub find_reference : List (Text × Text) → Text × Text → Comparison → Comparison
unfolding match_reference same
find_reference right (holder, target) c =
    match_reference holder target (find (λ (name, _). same name holder) right) c

unfoldable pub foreign_keys : SchemaDraft → SchemaDraft → Comparison → Comparison
unfolding references find_reference extra_reference
foreign_keys expected actual c =
    let left = references expected in
    let right = references actual in
    for_each right (extra_reference left) (for_each left (find_reference right) c)

unfoldable pub ends_of : SchemaDraft → Relationship → Text
unfolding point_at lit
ends_of draft link =
    point_at draft link.from_entity_id link.from_attribute_id
    ++ (lit " -> " ++ point_at draft link.to_entity_id link.to_attribute_id)

unfoldable pub links : SchemaDraft → List Text
unfolding ends_of
links draft = map (ends_of draft) draft.relationships

link_path : Text → Text
unfolding lit
link_path ends = lit "relationships[" ++ (ends ++ lit "]")

-- Two links that join the same columns. The index is in range, as `links` has one text for each.
unfoldable pub pair_links : Text → Relationship → Option Relationship → Comparison → Comparison
unfolding record_one changed_at counts_mut match_one same_cardinality as_str description
pair_links path link none c = c
pair_links path link (some other) c = description path link.description other.description (
    if same_cardinality other.cardinality link.cardinality
    then counts_mut Category.relationships match_one c
    else record_one Category.relationships
        (changed_at path (as_str link.cardinality) (as_str other.cardinality)) c)

unfoldable pub match_link :
    SchemaDraft → Relationship → Text → Option (ℕ × Text) → Matched → Matched
unfolding record_one missing_at as_str pair_links link_path
match_link actual link ends none m = record m {
  comparison =
      record_one Category.relationships (missing_at (link_path ends) (as_str link.cardinality))
        m.comparison;
}
match_link actual link ends (some (at, _)) m = record {
  taken = set m.taken at true;
  comparison = pair_links (link_path ends) link (get_elem? actual.relationships at) m.comparison;
}

unfoldable pub extra_link : Text → Option Relationship → Comparison → Comparison
unfolding record_one extra_at as_str link_path
extra_link ends none c = c
extra_link ends (some link) c =
    record_one Category.relationships (extra_at (link_path ends) (as_str link.cardinality)) c

unfoldable pub take_link : SchemaDraft → Relationship × Text → Matched → Matched
unfolding links find_free match_link same
take_link actual (link, ends) m =
    match_link actual link ends (find_free (λ other. same other ends) m.taken (links actual)) m

unfoldable pub match_links : SchemaDraft → SchemaDraft → Comparison → Matched
unfolding links take_link
match_links expected actual c =
    for_each (zip expected.relationships (links expected)) (take_link actual)
      (record { taken = none_taken (links actual); comparison = c })

unfoldable pub extra_link_at : SchemaDraft → ℕ × Text → Comparison → Comparison
unfolding extra_link
extra_link_at actual (at, ends) c = extra_link ends (get_elem? actual.relationships at) c

unfoldable pub relationships : SchemaDraft → SchemaDraft → Comparison → Comparison
unfolding links free_from match_links extra_link_at
relationships expected actual c =
    let m = match_links expected actual c in
    for_each (free_from 0 m.taken (links actual)) (extra_link_at actual) m.comparison

unfoldable pub compare_pair :
    (show_f64 : ℕ → Text) (include_positions : Bool) → Entity × Entity → Comparison → Comparison
unfolding compare_entity
compare_pair show_f64 include_positions (left, right) c =
    compare_entity show_f64 include_positions left right c

unfoldable pub compare :
    (show_f64 : ℕ → Text) (expected actual : SchemaDraft) (include_positions : Bool) → Comparison
unfolding entities compare_pair foreign_keys relationships nothing_compared
compare show_f64 expected actual include_positions =
    let (pairs, counted) = entities expected actual nothing_compared in
    relationships expected actual (
      foreign_keys expected actual
        (for_each pairs (compare_pair show_f64 include_positions) counted))
