-- ===== src/Tests/Comparisons.antt =====
-- The shop compared with itself, and with a shop that has lost its orders.
use schema_forge_backend.Base.{◌<◌, ◌^◌, true, ◌≡◌, ◌↔◌, refl, [], ◌∷◌, length, All, arith}
use mathlib.Core.List.{flat_map}
use schema_forge_backend.Text.{lit}
use schema_forge_backend.Text.Decimal.{decimal}
use schema_forge_backend.Domain.Entity.{same_position, f64_beq, is_nan}
use schema_forge_backend.Domain.Schema.{SchemaDraft}
use schema_forge_backend.Domain.Comparison.{is_equal}
use schema_forge_backend.Exchange.Compare.Drafts.{compare, references}
use schema_forge_backend.Exchange.Compare.Tables.{CountedOnce, compare-tables}
use schema_forge_backend.Exchange.Compare.Totals.{compare-is_equal_iff}
use schema_forge_backend.Exchange.Compare.Itself.{Distinct, compare-itself}
use schema_forge_backend.Tests.Sample.{shop, customer}

abbrev shop_draft : SchemaDraft
shop_draft = record {
  name = shop.name;
  description = shop.description;
  entities = shop.entities;
  relationships = shop.relationships;
}

abbrev lost_orders : SchemaDraft
lost_orders = record shop_draft { entities = customer ∷ []; relationships = [] }

few_tables : length shop_draft.entities < 2 ^ 32
unfolding lit
few_tables = omega arith

compare-tables_example :
    CountedOnce shop_draft lost_orders (compare decimal shop_draft lost_orders true).tables
compare-tables_example = compare-tables decimal shop_draft lost_orders true few_tables (omega arith)

shop_placed : All (λ e. same_position e.position e.position ≡ true) shop_draft.entities
unfolding same_position f64_beq is_nan lit
shop_placed = (refl, (refl, tt))

shop-Distinct : Distinct (references shop_draft)
unfolding references flat_map lit
shop-Distinct = (tt, tt)

compare-itself_example :
    ((compare decimal shop_draft shop_draft true).differences ≡ [])
    × (is_equal (compare decimal shop_draft shop_draft true) ≡ true)
compare-itself_example = compare-itself decimal shop_draft true shop_placed shop-Distinct

few_differences : length (compare decimal shop_draft shop_draft true).differences < 2 ^ 32
few_differences = ground (arith, compare-itself_example.0)

compare-is_equal_iff_example :
    (is_equal (compare decimal shop_draft shop_draft true) ≡ true)
    ↔ ((compare decimal shop_draft shop_draft true).differences ≡ [])
compare-is_equal_iff_example =
    compare-is_equal_iff decimal shop_draft shop_draft true few_differences
