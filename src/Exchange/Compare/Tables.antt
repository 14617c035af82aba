-- ===== src/Exchange/Compare/Tables.antt =====
-- Every table of either schema is counted once: it is matched, or it is missing or extra.
use schema_forge_backend.Base.{
  ℕ, suc, ◌+◌, ◌<◌, ◌^◌, Bool, true, ◌≡◌, ◌≢◌, refl, List, [], ◌∷◌, length, arith, Option, none,
  some, for_each, ap, sym, subst, length-set,
}
use schema_forge_backend.Text.{Text}
use schema_forge_backend.Domain.Entity.{Entity}
use schema_forge_backend.Domain.Schema.{SchemaDraft}
use schema_forge_backend.Domain.Comparison.{
  Category, Counts, Comparison, nothing_compared, count, match_one, counts_mut, extend, record_one,
  missing_at, extra_at,
}
use schema_forge_backend.Exchange.Compare.Matching.{find_free, free_from, none_taken}
use schema_forge_backend.Exchange.Compare.Free.{
  free, find_free-free, free_from-length, free-replicate,
}
use schema_forge_backend.Exchange.Compare.Totals.{incremented-small}
use schema_forge_backend.Exchange.Compare.Steps.{KeptAt}
use schema_forge_backend.Exchange.Compare.Kept.{after_entities-keep}
use schema_forge_backend.Exchange.Compare.Elements.{same}
use schema_forge_backend.Exchange.Compare.Drafts.{
  Paired, match_entity, take_entity, match_entities, extra_table, entities, compare,
}

-- After `n` tables of the first schema.
record Counted (n : ℕ) (actual : List Entity) (p : Paired) : Type 0 where
  from_expected : p.matched.comparison.tables.matched + p.matched.comparison.tables.missing ≡ n
  from_actual : p.matched.comparison.tables.matched + free p.matched.taken ≡ length actual
  no_extra : p.matched.comparison.tables.extra ≡ 0
  no_changed : p.matched.comparison.tables.changed ≡ 0
  long : length p.matched.taken ≡ length actual

match_entity-Counted :
    (n : ℕ) (left : Entity) (actual : List Entity) (p : Paired) (fits : Entity → Bool)
    (found : Option (ℕ × Entity))
    → found ≡ find_free fits p.matched.taken actual
    → n + 1 < 2 ^ 32
    → Counted n actual p
    → Counted (n + 1) actual (match_entity left found p)
unfolding match_entity record_one counts_mut match_one count extend missing_at
match_entity-Counted n left actual p fits none e small so_far = record {
  from_expected =
      omega (arith, so_far.from_expected, incremented-small p.matched.comparison.tables.missing);
  from_actual = so_far.from_actual;
  no_extra = so_far.no_extra;
  no_changed = so_far.no_changed;
  long = so_far.long;
}
match_entity-Counted n left actual p fits (some (at, right)) e small so_far =
    let one_less = find_free-free fits p.matched.taken actual at right (sym e) in
    let next = incremented-small p.matched.comparison.tables.matched in
    record {
      from_expected = omega (arith, so_far.from_expected, next);
      from_actual = omega (arith, so_far.from_actual, so_far.from_expected, next, one_less);
      no_extra = so_far.no_extra;
      no_changed = so_far.no_changed;
      long = omega (arith, so_far.long, length-set p.matched.taken at true);
    }

take_all-Counted :
    (n : ℕ) (expected actual : List Entity) (p : Paired)
    → n + length expected < 2 ^ 32
    → Counted n actual p
    → Counted (n + length expected) actual (for_each expected (take_entity actual) p)
unfolding take_entity
take_all-Counted n [] actual p small so_far = subst (λ m. Counted m actual p) (omega arith) so_far
take_all-Counted n (left ∷ expected) actual p small so_far =
    let next =
      match_entity-Counted n left actual p (λ right. same right.name left.name) _ refl
        (omega (arith, small)) so_far in
    subst (λ m. Counted m actual (for_each (left ∷ expected) (take_entity actual) p)) (omega arith)
      (take_all-Counted (n + 1) expected actual (take_entity actual left p) (omega (arith, small))
        next)

-- The rest of the tables, each of them extra.
record Extended (more : ℕ) (before after : Counts) : Type 0 where
  same_matched : after.matched ≡ before.matched
  same_missing : after.missing ≡ before.missing
  same_changed : after.changed ≡ before.changed
  more_extra : after.extra ≡ before.extra + more

extra_all :
    (xs : List (ℕ × Entity)) (c : Comparison)
    → c.tables.extra + length xs < 2 ^ 32
    → Extended (length xs) c.tables (for_each xs extra_table c).tables
unfolding extra_table record_one counts_mut count extend extra_at
extra_all [] c small = record {
  same_matched = refl;
  same_missing = refl;
  same_changed = refl;
  more_extra = omega arith;
}
extra_all ((at, x) ∷ xs) c small =
    let next = incremented-small c.tables.extra (omega (arith, small)) in
    let rest = extra_all xs (extra_table (at, x) c) (omega (arith, small, next)) in
    record {
      same_matched = rest.same_matched;
      same_missing = rest.same_missing;
      same_changed = rest.same_changed;
      more_extra = omega (arith, rest.more_extra, next);
    }

-- The tables of the comparison are those that `entities` has counted.
tables_kept : (t : Counts) (k : Category) → k ≢ Category.tables → KeptAt (λ c. c.tables ≡ t) k
unfolding record_one counts_mut extend
tables_kept t Category.tables h = absurd (h refl)
tables_kept t Category.columns h = record {
  on_match = λ c e. e;
  on_record = λ d c e. e;
  on_change = λ d found c e. e;
}
tables_kept t Category.keys h = record {
  on_match = λ c e. e;
  on_record = λ d c e. e;
  on_change = λ d found c e. e;
}
tables_kept t Category.foreign_keys h = record {
  on_match = λ c e. e;
  on_record = λ d c e. e;
  on_change = λ d found c e. e;
}
tables_kept t Category.relationships h = record {
  on_match = λ c e. e;
  on_record = λ d c e. e;
  on_change = λ d found c e. e;
}
tables_kept t Category.descriptions h = record {
  on_match = λ c e. e;
  on_record = λ d c e. e;
  on_change = λ d found c e. e;
}
tables_kept t Category.positions h = record {
  on_match = λ c e. e;
  on_record = λ d c e. e;
  on_change = λ d found c e. e;
}

length-none_taken : (xs : List Entity) → length (none_taken xs) ≡ length xs
length-none_taken [] = refl
length-none_taken (x ∷ xs) = ap suc (length-none_taken xs)

start_Counted :
    (actual : List Entity)
    → Counted 0 actual (record {
      matched = record { taken = none_taken actual; comparison = nothing_compared };
      pairs = [];
    })
unfolding nothing_compared
start_Counted actual = record {
  from_expected = refl;
  from_actual = omega (arith, free-replicate (length actual));
  no_extra = refl;
  no_changed = refl;
  long = length-none_taken actual;
}

-- Each table of either schema counted once.
abbrev pub CountedOnce : SchemaDraft → SchemaDraft → Counts → Type 0
CountedOnce expected actual t =
    (t.matched + t.missing ≡ length expected.entities)
    × (t.matched + t.extra ≡ length actual.entities)
    × (t.changed ≡ 0)

entities-tables :
    (expected actual : SchemaDraft)
    → length expected.entities < 2 ^ 32
    → length actual.entities < 2 ^ 32
    → CountedOnce expected actual (entities expected actual nothing_compared).1.tables
unfolding entities match_entities
entities-tables expected actual small_expected small_actual =
    let p = match_entities expected.entities actual.entities nothing_compared in
    let counted =
      take_all-Counted 0 expected.entities actual.entities _ (omega (arith, small_expected))
        (start_Counted actual.entities) in
    let left = free_from-length 0 p.matched.taken actual.entities counted.long in
    let rest =
      extra_all (free_from 0 p.matched.taken actual.entities) p.matched.comparison
        (omega (arith, left, counted.no_extra, counted.from_actual, small_actual)) in
    (
      omega (arith, rest.same_matched, rest.same_missing, counted.from_expected),
      omega
          (arith, rest.same_matched, rest.more_extra, counted.no_extra, counted.from_actual, left),
      omega (arith, rest.same_changed, counted.no_changed),
    )

-- When each schema has fewer than 2^32 tables, every table of the first is counted as matched or
-- missing, every table of the second as matched or extra, and none as changed.
pub compare-tables :
    (show_f64 : ℕ → Text) (expected actual : SchemaDraft) (include_positions : Bool)
    → length expected.entities < 2 ^ 32
    → length actual.entities < 2 ^ 32
    → CountedOnce expected actual (compare show_f64 expected actual include_positions).tables
compare-tables show_f64 expected actual include_positions small_expected small_actual =
    let counted = (entities expected actual nothing_compared).1.tables in
    let kept =
      after_entities-keep (λ c. c.tables ≡ counted) (tables_kept counted) show_f64 expected actual
        include_positions refl in
    subst (CountedOnce expected actual) (sym kept)
      (entities-tables expected actual small_expected small_actual)
