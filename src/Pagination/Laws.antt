-- ===== src/Pagination/Laws.antt =====
-- The pages that a request can ask for, and the links of a page.
use schema_forge_backend.Base.{
  ℕ, zero, suc, ◌+◌, ◌*◌, ◌≤◌, ◌<◌, ◌^◌, ◌≡◌, ◌⊎◌, refl, ap, ◌∙◌, arith, Bool, true, false, not,
  ==_iff, list_eq, nat_eq, nat_beq, leb, ltb, ◌||◌, ◌&&◌, ◌/◌, ◌%◌, if◌then◌else◌, List, [], Option,
  none, some, ℤ, pos, negsuc, lt_int, next_int, previous_int, times_int, wrap, wrap-pos, divided,
  has_rest,
}
use native.Mathlib.Nat.{div-add-mod, mod-lt}
use schema_forge_backend.Text.{Text}
use schema_forge_backend.Pagination.{
  ListRequest, clamp_page, clamp_per_page, clean_order, normalize, ascending, descending, raw,
  from_query, offset, new, total_pages, next_page, previous_page, at_least_one,
}

-- A page from 1 on, of 1 to 100 elements, in one of the two orders or in none.
pub record IsNormal (r : ListRequest) : Type 0 where
  pub page_positive : (p : ℕ) × (r.page ≡ pos (p + 1))
  pub per_page_bounded : (k : ℕ) × (r.per_page ≡ pos k) × (1 ≤ k) × (k ≤ 100)
  pub order_known : (r.order ≡ []) ⊎ ((r.order ≡ ascending) ⊎ (r.order ≡ descending))

clamp_page-positive : (page : ℤ) → (p : ℕ) × (clamp_page page ≡ pos (p + 1))
unfolding clamp_page lt_int
clamp_page-positive (negsuc n) = (0, refl)
clamp_page-positive (pos zero) = (0, refl)
clamp_page-positive (pos (suc n)) = (n, ground arith)

clamp_per_page-bounded :
    (per_page : ℤ) → (k : ℕ) × (clamp_per_page per_page ≡ pos k) × (1 ≤ k) × (k ≤ 100)
unfolding clamp_per_page lt_int
clamp_per_page-bounded (negsuc n) = (10, refl, omega arith, omega arith)
clamp_per_page-bounded (pos n) = bounded (ltb n 1 || ltb 100 n) refl
  where
    bounded :
        (b : Bool)
        → (ltb n 1 || ltb 100 n) ≡ b
        → (k : ℕ) × ((if b then pos 10 else pos n) ≡ pos k) × (1 ≤ k) × (k ≤ 100)
    bounded true h = (10, refl, omega arith, omega arith)
    bounded false h = (n, refl, ground arith, ground arith)

clean_order-known :
    (order : Text)
    → (clean_order order ≡ [])
      ⊎ ((clean_order order ≡ ascending) ⊎ (clean_order order ≡ descending))
unfolding clean_order
clean_order-known order = ground (arith, ==_iff order ascending, ==_iff order descending)

pub normalize-IsNormal : (r : ListRequest) → IsNormal (normalize r)
unfolding normalize
normalize-IsNormal r = record {
  page_positive = clamp_page-positive r.page;
  per_page_bounded = clamp_per_page-bounded r.per_page;
  order_known = clean_order-known r.order;
}

-- Whatever the query, and whatever its parser and that of numbers answer, the request is for a page
-- from 1 on, of 1 to 100 elements, in one of the two orders or in none.
pub from_query-IsNormal :
    (parse_pairs : Text → Option (List (Text × Text))) (parse_i64 : Text → Option ℤ) (query : Text)
    → IsNormal (from_query parse_pairs parse_i64 query)
unfolding from_query
from_query-IsNormal parse_pairs parse_i64 query =
    normalize-IsNormal (raw parse_pairs parse_i64 query)

scaled : (k q : ℕ) → 1 ≤ k → q ≤ k * q
scaled zero q h = omega (arith, h)
scaled (suc k) q h = omega arith

-- The number of pages of `k` elements that hold `n`.
total_pages-ceiling :
    (n k : ℕ)
    → 1 ≤ k
    → n < 2 ^ 63
    → (pages : ℕ) × (total_pages (pos n) k ≡ pos pages) × (n ≤ pages * k) × (pages * k < n + k)
unfolding total_pages divided has_rest next_int
total_pages-ceiling n k some_of small = counted (nat_beq (n % k) 0) refl
  where
    counted :
        (b : Bool)
        → nat_beq (n % k) 0 ≡ b
        → (pages : ℕ) × ((if not b then wrap (pos (n / k + 1)) else pos (n / k)) ≡ pos pages)
          × (n ≤ pages * k)
          × (pages * k < n + k)
    counted true h =
        let whole : n % k ≡ 0 = ground (arith, h) in
        (n / k, refl, omega (arith, div-add-mod n k, whole), omega (arith, div-add-mod n k))
    counted false h =
        let less : n % k < k = mod-lt n (omega arith) in
        let part : 1 ≤ n % k = ground (arith, h) in
        let sum = div-add-mod n k in
        (
          n / k + 1,
          wrap-pos (n / k + 1) (omega (arith, sum, part, scaled k (n / k) some_of, small)),
          omega (arith, sum, less),
          omega (arith, sum, part),
        )

next_page-within :
    (p pages : ℕ)
    → p + 1 < 2 ^ 63
    → next_page (pos p) (pos pages) ≡ (if leb (p + 1) pages then some (pos (p + 1)) else none)
unfolding next_page next_int lt_int
next_page-within p pages h = rw (wrap-pos (p + 1) h) (ground arith)

previous_page-within :
    (p pages : ℕ)
    → p < 2 ^ 63
    → previous_page (pos (suc p)) (pos pages)
      ≡ (if leb 1 p && leb p pages then some (pos p) else none)
unfolding previous_page previous_int lt_int
previous_page-within p pages h = rw (wrap-pos p h) (ground arith)

-- A listing of `n` elements in pages of `k + 1`, seen at page `p + 1`, all numbers of 64 bits with a
-- sign, has as many pages as hold the elements, with no page empty; it links to the next page exactly
-- when there is one, and to the previous one exactly when that is a page from 1 on that exists.
pub new-links :
    {T : Type 0} (content : List T) (n p k : ℕ)
    → n < 2 ^ 63
    → suc p + 1 < 2 ^ 63
    → let meta = (new content (pos n) (pos (suc p)) (pos (suc k))).meta in
      (pages : ℕ) × (meta.total_pages ≡ pos pages)
      × (n ≤ pages * suc k)
      × (pages * suc k < n + suc k)
      × (meta.next_page ≡ (if leb (suc p + 1) pages then some (pos (suc p + 1)) else none))
      × (meta.previous_page ≡ (if leb 1 p && leb p pages then some (pos p) else none))
unfolding new at_least_one
new-links content n p k small page_small =
    let (pages, total, enough, full) = total_pages-ceiling n (suc k) (omega arith) small in
    (
      pages,
      total,
      enough,
      full,
      ap (next_page (pos (suc p))) total ∙ next_page-within (suc p) pages page_small,
      ap (previous_page (pos (suc p))) total
          ∙ previous_page-within p pages (omega (arith, page_small)),
    )

-- The offset of a page is the number of elements on the pages before it, as long as that is a number
-- of 64 bits with a sign.
pub offset-before :
    (r : ListRequest) (p k : ℕ)
    → r.page ≡ pos (suc p)
    → r.per_page ≡ pos k
    → p < 2 ^ 63
    → p * k < 2 ^ 63
    → offset r ≡ pos (p * k)
unfolding offset previous_int times_int
offset-before r p k page per_page small product =
    rw (page, per_page, wrap-pos p small, wrap-pos (p * k) product)
