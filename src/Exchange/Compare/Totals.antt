-- ===== src/Exchange/Compare/Totals.antt =====
-- The counts of a comparison are clean exactly when it lists no difference.
use schema_forge_backend.Base.{
  ℕ, ◌+◌, ◌≤◌, ◌<◌, ◌^◌, Bool, true, ◌≡◌, ◌↔◌, refl, List, [], ◌∷◌, ◌++◌, length, length-append,
  arith, nat_eq, ap, suc, All, all-true_iff,
}
use schema_forge_backend.Text.{Text}
use schema_forge_backend.Domain.Schema.{SchemaDraft}
use schema_forge_backend.Domain.Comparison.{
  Category, Difference, DifferenceKind, Counts, Comparison, variants, nothing_compared, incremented,
  is_clean, count, match_one, change_one, counts, is_equal, counts_mut, extend, record_one,
}
use schema_forge_backend.Exchange.Compare.Steps.{KeptAt}
use schema_forge_backend.Exchange.Compare.Kept.{entities-keeps, after_entities-keep}
use schema_forge_backend.Exchange.Compare.Drafts.{compare}

abbrev unclean : Counts → ℕ
unclean k = k.missing + k.extra + k.changed

-- All that did not match.
abbrev total : Comparison → ℕ
total c =
    unclean c.tables
    + unclean c.columns
    + unclean c.keys
    + unclean c.foreign_keys
    + unclean c.relationships
    + unclean c.descriptions
    + unclean c.positions

pub incremented-small : (n : ℕ) → n + 1 < 2 ^ 32 → incremented n ≡ n + 1
unfolding incremented
incremented-small n h = omega arith

count-unclean :
    (kind : DifferenceKind) (k : Counts)
    → unclean k + 1 < 2 ^ 32
    → unclean (count kind k) ≡ unclean k + 1
unfolding count
count-unclean DifferenceKind.missing k h = omega (arith, incremented-small k.missing)
count-unclean DifferenceKind.extra k h = omega (arith, incremented-small k.extra)
count-unclean DifferenceKind.changed k h = omega (arith, incremented-small k.changed)

change_one-unclean : (k : Counts) → unclean k + 1 < 2 ^ 32 → unclean (change_one k) ≡ unclean k + 1
unfolding change_one
change_one-unclean k h = omega (arith, incremented-small k.changed)

counts-total : (category : Category) (c : Comparison) → unclean (counts c category) ≤ total c
unfolding counts
counts-total Category.tables c = omega arith
counts-total Category.columns c = omega arith
counts-total Category.keys c = omega arith
counts-total Category.foreign_keys c = omega arith
counts-total Category.relationships c = omega arith
counts-total Category.descriptions c = omega arith
counts-total Category.positions c = omega arith

counts_mut-total :
    (category : Category) (f : Counts → Counts) (more : ℕ) (c : Comparison)
    → unclean (f (counts c category)) ≡ unclean (counts c category) + more
    → total (counts_mut category f c) ≡ total c + more
unfolding counts counts_mut
counts_mut-total Category.tables f more c h = omega arith
counts_mut-total Category.columns f more c h = omega arith
counts_mut-total Category.keys f more c h = omega arith
counts_mut-total Category.foreign_keys f more c h = omega arith
counts_mut-total Category.relationships f more c h = omega arith
counts_mut-total Category.descriptions f more c h = omega arith
counts_mut-total Category.positions f more c h = omega arith

counts_mut-differences :
    (category : Category) (f : Counts → Counts) (c : Comparison)
    → (counts_mut category f c).differences ≡ c.differences
unfolding counts_mut
counts_mut-differences Category.tables f c = refl
counts_mut-differences _ f c = refl

-- As long as the list fits a `u32`, there is a difference for each thing counted, and a thing
-- counted if there is a difference.
abbrev Balanced : Comparison → Type 0
Balanced c =
    length c.differences < 2 ^ 32
    → (total c ≤ length c.differences) × (total c ≡ 0 → length c.differences ≡ 0)

grows :
    (category : Category) (f : Counts → Counts) (d : Difference) (ds : List Difference)
    (c : Comparison)
    → ((k : Counts) → unclean k + 1 < 2 ^ 32 → unclean (f k) ≡ unclean k + 1)
    → Balanced c
    → Balanced (extend (d ∷ ds) (counts_mut category f c))
unfolding extend
grows category f d ds c step balanced small =
    let shown = counts_mut-differences category f c in
    let longer : length ((counts_mut category f c).differences ++ d ∷ ds)
        ≡ length c.differences + suc (length ds) =
      rw shown (length-append c.differences (d ∷ ds)) in
    let before = balanced (omega (arith, longer)) in
    let one =
      counts_mut-total category f 1 c
        (step (counts c category) (omega (arith, longer, before.0, counts-total category c))) in
    (omega (arith, longer, one, before.0), λ none. omega (arith, none, one))

Balanced-kept : (category : Category) → KeptAt Balanced category
unfolding record_one match_one
Balanced-kept category = record {
  on_match = λ c balanced small.
      let same_total = counts_mut-total category match_one 0 c (omega arith) in
      let shown = counts_mut-differences category match_one c in
      rw (shown, same_total) (ground (arith, balanced (rw shown at small)));
  on_record = λ d c. grows category (count d.kind) d [] c (count-unclean d.kind);
  on_change = λ d found c. grows category change_one d found c change_one-unclean;
}

is_clean_iff : (k : Counts) → (is_clean k ≡ true) ↔ (unclean k ≡ 0)
unfolding is_clean
is_clean_iff k = ground arith

all_of {ℓ κ} : {A : Type ℓ} {P : A → Type κ} → ((a : A) → P a) → (xs : List A) → All P xs
all_of h [] = tt
all_of h (x ∷ xs) = (h x, all_of h xs)

sum_zero :
    (c : Comparison) → All (λ category. unclean (counts c category) ≡ 0) variants → total c ≡ 0
unfolding counts
sum_zero c (t, (k, (y, (f, (r, (d, (p, _))))))) = omega (arith, t, k, y, f, r, d, p)

is_equal-total : (c : Comparison) → (is_equal c ≡ true) ↔ (total c ≡ 0)
unfolding is_equal counts
is_equal-total c =
    let each =
      all-true_iff {P = λ category. unclean (counts c category) ≡ 0}
        (λ category. is_clean (counts c category)) variants
        (λ category. is_clean_iff (counts c category)) in
    (
      λ e. sum_zero c (each.0 e),
      λ none. each.1 (
          all_of {P = λ category. unclean (counts c category) ≡ 0}
            (λ category. omega (arith, none, counts-total category c)) variants),
    )

nothing-Balanced : Balanced nothing_compared
unfolding nothing_compared
nothing-Balanced small = ground arith

eq_nil_of_length {ℓ} : {A : Type ℓ} (xs : List A) → length xs ≡ 0 → xs ≡ []
eq_nil_of_length [] h = refl
eq_nil_of_length (x ∷ xs) h = absurd (omega (arith, h))

compare-Balanced :
    (show_f64 : ℕ → Text) (expected actual : SchemaDraft) (include_positions : Bool)
    → Balanced (compare show_f64 expected actual include_positions)
compare-Balanced show_f64 expected actual include_positions =
    after_entities-keep Balanced (λ k _. Balanced-kept k) show_f64 expected actual include_positions
      (entities-keeps Balanced (Balanced-kept Category.tables) expected actual nothing_compared
        nothing-Balanced)

-- When fewer than 2^32 differences are listed, a comparison says that the schemas are equal exactly
-- when it lists no difference.
pub compare-is_equal_iff :
    (show_f64 : ℕ → Text) (expected actual : SchemaDraft) (include_positions : Bool)
    → length (compare show_f64 expected actual include_positions).differences < 2 ^ 32
    → (is_equal (compare show_f64 expected actual include_positions) ≡ true)
      ↔ ((compare show_f64 expected actual include_positions).differences ≡ [])
compare-is_equal_iff show_f64 expected actual include_positions small =
    let c = compare show_f64 expected actual include_positions in
    let balanced = compare-Balanced show_f64 expected actual include_positions small in
    let verdict = is_equal-total c in
    (
      λ e. eq_nil_of_length c.differences (balanced.1 (verdict.0 e)),
      λ none. verdict.1 (omega (arith, balanced.0, ap length none)),
    )
