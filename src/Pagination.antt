-- ===== src/Pagination.antt =====
-- src/package/pagination.rs: the page a caller asks for, and the page it gets. The parsing of a query
-- string and of a number is a library's, a parameter; a `HashMap` is an association list.
pub mod Laws
use schema_forge_backend.Base.{
  ℕ, zero, suc, Bool, true, false, not, ◌||◌, ◌&&◌, ◌==◌, list_eq, nat_eq, if◌then◌else◌, List, [],
  ◌∷◌, map, is_empty, for_each, Option, none, some, ℤ, pos, negsuc, lt_int, next_int, previous_int,
  times_int, divided, has_rest,
}
use schema_forge_backend.Text.{Text, lit}

abbrev pub default_per_page : ℤ
default_per_page = pos 10

abbrev pub max_per_page : ℤ
max_per_page = pos 100

pub record ListRequest : Type 0 where
  pub page : ℤ
  pub per_page : ℤ
  pub sort_by : Text
  pub order : Text
  pub filters : List (Text × Text)

-- `ListRequest::default`
unfoldable pub whole : ListRequest
whole = record { page = pos 1; per_page = default_per_page; sort_by = []; order = []; filters = [] }

unfoldable pub ascending : Text
unfolding lit
ascending = lit "asc"

unfoldable pub descending : Text
unfolding lit
descending = lit "desc"

clamp_page : ℤ → ℤ
unfolding lt_int
clamp_page page = if lt_int page (pos 1) then pos 1 else page

clamp_per_page : ℤ → ℤ
unfolding lt_int
clamp_per_page per_page =
    if lt_int per_page (pos 1) || lt_int max_per_page per_page then default_per_page else per_page

clean_order : Text → Text
unfolding ascending descending
clean_order order = if not (order == ascending) && not (order == descending) then [] else order

unfoldable pub normalize : ListRequest → ListRequest
unfolding clamp_page clamp_per_page clean_order
normalize r = record r {
  page = clamp_page r.page;
  per_page = clamp_per_page r.per_page;
  order = clean_order r.order;
}

unfoldable pub paged : (page per_page : ℤ) → ListRequest
unfolding normalize whole
paged page per_page = normalize (record whole { page = page; per_page = per_page })

-- `HashMap::insert`
unfoldable pub insert : Text → Text → List (Text × Text) → List (Text × Text)
insert key value [] = (key, value) ∷ []
insert key value ((k, v) ∷ filters) =
    let rest = insert key value filters in if key == k then (k, value) ∷ filters else (k, v) ∷ rest

or_else : {A : Type 0} → A → Option A → A
or_else d none = d
or_else d (some a) = a

module _ (parse_pairs : Text → Option (List (Text × Text))) (parse_i64 : Text → Option ℤ) where
  -- One pair of the query.
  unfoldable pub read_pair : Text × Text → ListRequest → ListRequest
  unfolding insert or_else lit
  read_pair (key, value) r =
      if key == lit "page"
      then record r { page = or_else (pos 1) (parse_i64 value) }
      else if key == lit "per_page"
      then record r { per_page = or_else default_per_page (parse_i64 value) }
      else if key == lit "sort_by"
      then record r { sort_by = value }
      else if key == lit "order"
      then record r { order = value }
      else record r { filters = insert key value r.filters }

  -- The request as the query has it.
  unfoldable pub raw : Text → ListRequest
  unfolding read_pair whole or_else
  raw query = for_each (or_else [] (parse_pairs query)) read_pair whole

  unfoldable pub from_query : Text → ListRequest
  unfolding raw normalize
  from_query query = normalize (raw query)

unfoldable pub offset : ListRequest → ℤ
unfolding previous_int times_int
offset r = times_int (previous_int r.page) r.per_page

unfoldable pub get : Text → List (Text × Text) → Option Text
get key [] = none
get key ((k, v) ∷ filters) = if key == k then some v else get key filters

non_empty : Option Text → Option Text
non_empty none = none
non_empty (some value) = if is_empty value then none else some value

unfoldable pub filter : ListRequest → Text → Option Text
unfolding get non_empty
filter r key = non_empty (get key r.filters)

pub record MetaData : Type 0 where
  pub total_count : ℤ
  pub total_pages : ℤ
  pub current_page : ℤ
  pub per_page : ℤ
  pub next_page : Option ℤ
  pub previous_page : Option ℤ

pub record Data (T : Type 0) : Type 0 where
  pub content : List T
  pub meta : MetaData

-- `per_page.max(1)`, which is positive.
at_least_one : ℤ → ℕ
at_least_one (pos zero) = 1
at_least_one (pos (suc n)) = suc n
at_least_one (negsuc n) = 1

unfoldable pub total_pages : ℤ → ℕ → ℤ
unfolding divided has_rest next_int
total_pages total_count per_page =
    if has_rest total_count per_page
    then next_int (divided total_count per_page)
    else divided total_count per_page

unfoldable pub next_page : (current pages : ℤ) → Option ℤ
unfolding lt_int next_int
next_page current pages = if lt_int pages (next_int current) then none else some (next_int current)

unfoldable pub previous_page : (current pages : ℤ) → Option ℤ
unfolding lt_int previous_int
previous_page current pages =
    if not (lt_int (previous_int current) (pos 1)) && not (lt_int pages (previous_int current))
    then some (previous_int current)
    else none

-- `Data::new`
unfoldable pub new : {T : Type 0} → List T → (total_count current_page per_page : ℤ) → Data T
unfolding at_least_one total_pages next_page previous_page
new content total_count current_page per_page =
    let pages = total_pages total_count (at_least_one per_page) in
    record {
      content = content;
      meta = record {
        total_count = total_count;
        total_pages = pages;
        current_page = current_page;
        per_page = pos (at_least_one per_page);
        next_page = next_page current_page pages;
        previous_page = previous_page current_page pages;
      };
    }

-- `Data::map`
unfoldable pub map_data : {T U : Type 0} → (T → U) → Data T → Data U
map_data f d = record { content = map f d.content; meta = d.meta }
