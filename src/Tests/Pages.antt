-- ===== src/Tests/Pages.antt =====
-- Twenty-five rows in pages of ten.
use schema_forge_backend.Base.{
  ℕ, ◌≤◌, ◌<◌, ◌*◌, ◌≡◌, refl, true, arith, leb, ◌&&◌, if◌then◌else◌, List, [], ◌∷◌, Option, none,
  some, ℤ, pos, lt_int,
}
use schema_forge_backend.Text.{Text, lit}
use schema_forge_backend.Pagination.{ListRequest, from_query, paged, offset, new}
use schema_forge_backend.Pagination.Laws.{IsNormal, from_query-IsNormal, new-links, offset-before}

-- A query of one pair, and a number that is far out of range.
abbrev pairs : Text → Option (List (Text × Text))
unfolding lit
pairs query = some ((lit "per_page", query) ∷ [])

abbrev number : Text → Option ℤ
number text = some (pos 1000)

from_query-IsNormal_example : IsNormal (from_query pairs number (lit "1000"))
from_query-IsNormal_example = from_query-IsNormal pairs number (lit "1000")

new-links_example :
    let meta = (new (lit "rows") (pos 25) (pos 2) (pos 10)).meta in
    (pages : ℕ) × (meta.total_pages ≡ pos pages)
    × (25 ≤ pages * 10)
    × (pages * 10 < 35)
    × (meta.next_page ≡ (if leb 3 pages then some (pos 3) else none))
    × (meta.previous_page ≡ (if leb 1 1 && leb 1 pages then some (pos 1) else none))
new-links_example = new-links (lit "rows") 25 1 9 (omega arith) (omega arith)

abbrev third : ListRequest
third = record { page = pos 3; per_page = pos 10; sort_by = []; order = []; filters = [] }

offset-before_example : offset third ≡ pos 20
offset-before_example = offset-before third 2 10 refl refl (omega arith) (omega arith)

-- A page that is far out of range comes before the first row.
offset_wraps : lt_int (offset (paged (pos 0x4000_0000_0000_0000) (pos 3))) (pos 0) ≡ true
unfolding offset paged lt_int
offset_wraps = refl
