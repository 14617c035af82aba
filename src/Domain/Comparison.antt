-- ===== src/Domain/Comparison.antt =====
-- src/module/schema/core/domain/comparison.rs
-- A count is a `u32` whose increment wraps. The two ratios, which are `f64` divisions, are left out.
use schema_forge_backend.Base.{ℕ, ◌+◌, ◌%◌, ◌^◌, Bool, ◌&&◌, ◌==◌, nat_eq, List, [], ◌∷◌, ◌++◌, all}
use schema_forge_backend.Text.{Text, lit}

pub data Category : Type 0 where
  tables columns keys foreign_keys relationships descriptions positions : Category

unfoldable pub category_name : Category → Text
unfolding lit
category_name tables = lit "tables"
category_name columns = lit "columns"
category_name keys = lit "keys"
category_name foreign_keys = lit "foreign_keys"
category_name relationships = lit "relationships"
category_name descriptions = lit "descriptions"
category_name positions = lit "positions"

abbrev pub variants : List Category
variants = tables ∷ columns ∷ keys ∷ foreign_keys ∷ relationships ∷ descriptions ∷ positions ∷ []

pub data DifferenceKind : Type 0 where
  missing extra changed : DifferenceKind

unfoldable pub kind_name : DifferenceKind → Text
unfolding lit
kind_name missing = lit "missing"
kind_name extra = lit "extra"
kind_name changed = lit "changed"

pub record Difference : Type 0 where
  pub kind : DifferenceKind
  pub path : Text
  pub expected : Text
  pub actual : Text

unfoldable pub missing_at : Text → Text → Difference
missing_at p e = record { kind = missing; path = p; expected = e; actual = [] }

unfoldable pub extra_at : Text → Text → Difference
extra_at p a = record { kind = extra; path = p; expected = []; actual = a }

unfoldable pub changed_at : Text → Text → Text → Difference
changed_at p e a = record { kind = changed; path = p; expected = e; actual = a }

pub record Counts : Type 0 where
  pub matched : ℕ
  pub missing : ℕ
  pub extra : ℕ
  pub changed : ℕ

-- `Counts::default`
abbrev pub no_counts : Counts
no_counts = record { matched = 0; missing = 0; extra = 0; changed = 0 }

-- `+= 1` on a `u32`.
unfoldable pub incremented : ℕ → ℕ
incremented n = (n + 1) % 2 ^ 32

unfoldable pub is_clean : Counts → Bool
is_clean c = c.missing == 0 && c.extra == 0 && c.changed == 0

unfoldable pub count : DifferenceKind → Counts → Counts
unfolding incremented
count missing c = record c { missing = incremented c.missing }
count extra c = record c { extra = incremented c.extra }
count changed c = record c { changed = incremented c.changed }

unfoldable pub match_one : Counts → Counts
unfolding incremented
match_one c = record c { matched = incremented c.matched }

unfoldable pub change_one : Counts → Counts
unfolding incremented
change_one c = record c { changed = incremented c.changed }

pub record Comparison : Type 0 where
  pub differences : List Difference
  pub tables : Counts
  pub columns : Counts
  pub keys : Counts
  pub foreign_keys : Counts
  pub relationships : Counts
  pub descriptions : Counts
  pub positions : Counts

-- `Comparison::default`
unfoldable pub nothing_compared : Comparison
nothing_compared = record {
  differences = [];
  tables = no_counts;
  columns = no_counts;
  keys = no_counts;
  foreign_keys = no_counts;
  relationships = no_counts;
  descriptions = no_counts;
  positions = no_counts;
}

unfoldable pub counts : Comparison → Category → Counts
counts c tables = c.tables
counts c columns = c.columns
counts c keys = c.keys
counts c foreign_keys = c.foreign_keys
counts c relationships = c.relationships
counts c descriptions = c.descriptions
counts c positions = c.positions

unfoldable pub is_equal : Comparison → Bool
unfolding counts is_clean
is_equal c = all (λ category. is_clean (counts c category)) variants

-- What is written through the reference that `counts_mut` returns.
unfoldable pub counts_mut : Category → (Counts → Counts) → Comparison → Comparison
counts_mut tables f c = record c { tables = f c.tables }
counts_mut columns f c = record c { columns = f c.columns }
counts_mut keys f c = record c { keys = f c.keys }
counts_mut foreign_keys f c = record c { foreign_keys = f c.foreign_keys }
counts_mut relationships f c = record c { relationships = f c.relationships }
counts_mut descriptions f c = record c { descriptions = f c.descriptions }
counts_mut positions f c = record c { positions = f c.positions }

-- `differences.push` and `differences.extend`
unfoldable pub extend : List Difference → Comparison → Comparison
extend ds c = record c { differences = c.differences ++ ds }

-- `Comparison::record`
unfoldable pub record_one : Category → Difference → Comparison → Comparison
unfolding extend counts_mut count
record_one category d c = extend (d ∷ []) (counts_mut category (count d.kind) c)
