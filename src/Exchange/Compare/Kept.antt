-- ===== src/Exchange/Compare/Kept.antt =====
-- What the three steps keep, the comparison of two schemas keeps.
use schema_forge_backend.Base.{
  ℕ, Bool, list_eq, nat_eq, ◌≢◌, List, [], Option, none, some, for_each, zip, any,
}
use schema_forge_backend.Text.{Text}
use schema_forge_backend.Domain.Entity.{Entity}
use schema_forge_backend.Domain.Relationship.{Relationship, same_cardinality}
use schema_forge_backend.Domain.Schema.{SchemaDraft}
use schema_forge_backend.Domain.Comparison.{Category, Comparison, nothing_compared}
use schema_forge_backend.Exchange.Compare.Matching.{free_from, none_taken}
use schema_forge_backend.Exchange.Compare.Elements.{same, Matched}
use schema_forge_backend.Exchange.Compare.Drafts.{
  match_entity, match_entities, entities, match_reference, extra_reference, foreign_keys,
  references, pair_links, match_link, extra_link, links, find_reference, take_link, match_links,
  extra_link_at, compare_pair, take_entity, extra_table, relationships, compare, Paired,
}
use schema_forge_backend.Exchange.Compare.Steps.{
  KeptAt, for_each-keeps, if-keeps, description-keeps, compare_entity-keeps,
}

module _ (I : Comparison → Type 0) (kept : (k : Category) → k ≢ Category.tables → KeptAt I k) where
  foreign_keys_kept : KeptAt I Category.foreign_keys
  foreign_keys_kept = kept Category.foreign_keys (λ e. cc)

  relationships_kept : KeptAt I Category.relationships
  relationships_kept = kept Category.relationships (λ e. cc)

  match_reference-keeps :
      (holder target : Text) (found : Option (Text × Text)) (c : Comparison)
      → I c
      → I (match_reference holder target found c)
  unfolding match_reference
  match_reference-keeps holder target none c i = foreign_keys_kept.on_record _ c i
  match_reference-keeps holder target (some (name, found)) c i =
      if-keeps I (same found target) (foreign_keys_kept.on_match c i)
        (foreign_keys_kept.on_record _ c i)

  find_reference-keeps :
      (right : List (Text × Text)) (reference : Text × Text) (c : Comparison)
      → I c
      → I (find_reference right reference c)
  unfolding find_reference
  find_reference-keeps right (holder, target) c i = match_reference-keeps holder target _ c i

  extra_reference-keeps :
      (left : List (Text × Text)) (reference : Text × Text) (c : Comparison)
      → I c
      → I (extra_reference left reference c)
  unfolding extra_reference
  extra_reference-keeps left (holder, target) c i =
      if-keeps I (any (λ (name, _). same name holder) left) i (foreign_keys_kept.on_record _ c i)

  pub foreign_keys-keeps :
      (expected actual : SchemaDraft) (c : Comparison) → I c → I (foreign_keys expected actual c)
  unfolding foreign_keys
  foreign_keys-keeps expected actual c i =
      for_each-keeps I (extra_reference (references expected))
        (extra_reference-keeps (references expected)) (references actual)
        (for_each (references expected) (find_reference (references actual)) c)
        (for_each-keeps I (find_reference (references actual))
          (find_reference-keeps (references actual)) (references expected) c i)

  pair_links-keeps :
      (path : Text) (link : Relationship) (other : Option Relationship) (c : Comparison)
      → I c
      → I (pair_links path link other c)
  unfolding pair_links
  pair_links-keeps path link none c i = i
  pair_links-keeps path link (some other) c i =
      description-keeps I kept path link.description other.description _ (
        if-keeps I (same_cardinality other.cardinality link.cardinality)
          (relationships_kept.on_match c i) (relationships_kept.on_record _ c i))

  match_link-keeps :
      (actual : SchemaDraft) (link : Relationship) (ends : Text) (found : Option (ℕ × Text))
      (m : Matched)
      → I m.comparison
      → I (match_link actual link ends found m).comparison
  unfolding match_link
  match_link-keeps actual link ends none m i = relationships_kept.on_record _ _ i
  match_link-keeps actual link ends (some (at, other)) m i = pair_links-keeps _ link _ _ i

  extra_link-keeps :
      (ends : Text) (link : Option Relationship) (c : Comparison) → I c → I (extra_link ends link c)
  unfolding extra_link
  extra_link-keeps ends none c i = i
  extra_link-keeps ends (some link) c i = relationships_kept.on_record _ c i

  extra_link_at-keeps :
      (actual : SchemaDraft) (extra : ℕ × Text) (c : Comparison)
      → I c
      → I (extra_link_at actual extra c)
  unfolding extra_link_at
  extra_link_at-keeps actual (at, ends) c i = extra_link-keeps ends _ c i

  take_link-keeps :
      (actual : SchemaDraft) (link : Relationship × Text) (m : Matched)
      → I m.comparison
      → I (take_link actual link m).comparison
  unfolding take_link
  take_link-keeps actual (link, ends) m i = match_link-keeps actual link ends _ m i

  match_links-keeps :
      (expected actual : SchemaDraft) (c : Comparison)
      → I c
      → I (match_links expected actual c).comparison
  unfolding match_links
  match_links-keeps expected actual c i =
      for_each-keeps (λ (m : Matched). I m.comparison) (take_link actual) (take_link-keeps actual)
        (zip expected.relationships (links expected))
        (record { taken = none_taken (links actual); comparison = c }) i

  pub relationships-keeps :
      (expected actual : SchemaDraft) (c : Comparison) → I c → I (relationships expected actual c)
  unfolding relationships
  relationships-keeps expected actual c i =
      for_each-keeps I (extra_link_at actual) (extra_link_at-keeps actual)
        (free_from 0 (match_links expected actual c).taken (links actual))
        (match_links expected actual c).comparison (match_links-keeps expected actual c i)

  compare_pair-keeps :
      (show_f64 : ℕ → Text) (include_positions : Bool) (pair : Entity × Entity) (c : Comparison)
      → I c
      → I (compare_pair show_f64 include_positions pair c)
  unfolding compare_pair
  compare_pair-keeps show_f64 include_positions (left, right) c i =
      compare_entity-keeps I kept show_f64 include_positions left right c i

  -- All that follows the count of the tables.
  pub after_entities-keep :
      (show_f64 : ℕ → Text) (expected actual : SchemaDraft) (include_positions : Bool)
      → I (entities expected actual nothing_compared).1
      → I (compare show_f64 expected actual include_positions)
  unfolding compare
  after_entities-keep show_f64 expected actual include_positions i =
      let (pairs, counted) = entities expected actual nothing_compared in
      let compared = for_each pairs (compare_pair show_f64 include_positions) counted in
      relationships-keeps expected actual (foreign_keys expected actual compared) (
        foreign_keys-keeps expected actual compared (
          for_each-keeps I (compare_pair show_f64 include_positions)
            (compare_pair-keeps show_f64 include_positions) pairs counted i))

module _ (I : Comparison → Type 0) (kept : KeptAt I Category.tables) where
  match_entity-keeps :
      (left : Entity) (found : Option (ℕ × Entity)) (p : Paired)
      → I p.matched.comparison
      → I (match_entity left found p).matched.comparison
  unfolding match_entity
  match_entity-keeps left none p i = kept.on_record _ _ i
  match_entity-keeps left (some (at, right)) p i = kept.on_match _ i

  match_entities-keeps :
      (expected actual : List Entity) (c : Comparison)
      → I c
      → I (match_entities expected actual c).matched.comparison
  unfolding match_entities take_entity
  match_entities-keeps expected actual c i =
      for_each-keeps (λ (p : Paired). I p.matched.comparison) (take_entity actual)
        (λ left p. match_entity-keeps left _ p) expected
        (record { matched = record { taken = none_taken actual; comparison = c }; pairs = [] }) i

  extra_table-keeps : (right : ℕ × Entity) (c : Comparison) → I c → I (extra_table right c)
  unfolding extra_table
  extra_table-keeps (at, right) c i = kept.on_record _ c i

  pub entities-keeps :
      (expected actual : SchemaDraft) (c : Comparison) → I c → I (entities expected actual c).1
  unfolding entities
  entities-keeps expected actual c i =
      let p = match_entities expected.entities actual.entities c in
      for_each-keeps I extra_table extra_table-keeps (free_from 0 p.matched.taken actual.entities)
        p.matched.comparison (match_entities-keeps expected.entities actual.entities c i)
