-- ===== src/Verifier/Cycles/Tarjan.antt =====
-- The strongly connected components of src/module/schema/core/service/verifier/cycles.rs. The
-- recursion of `visit` takes fuel: each nested call enters a node that was not entered before, so
-- the number of nodes is enough.
use schema_forge_backend.Base.{
  ℕ, ◌+◌, zero, suc, min, Bool, true, false, ltb, leb, ◌==◌, nat_eq, if◌then◌else◌, List, [], ◌∷◌,
  ◌++◌, Option, none, some, get_or, set, replicate, for_each, filter, map, length, range_from,
  sorted,
}

pub record Tarjan : Type 0 where
  pub index : List (Option ℕ)
  pub low : List ℕ
  pub on_stack : List Bool
  -- the top of the stack first
  pub stack : List ℕ
  pub next : ℕ
  pub components : List (List ℕ)

unfoldable pub enter : ℕ → Tarjan → Tarjan
enter node t = record t {
  index = set t.index node (some t.next);
  low = set t.low node t.next;
  next = t.next + 1;
  stack = node ∷ t.stack;
  on_stack = set t.on_stack node true;
}

unfoldable pub lower : ℕ → ℕ → Tarjan → Tarjan
lower node bound t = record t { low = set t.low node (min (get_or t.low node 0) bound) }

explored : (ℕ → Tarjan → Tarjan) → ℕ → ℕ → Option ℕ → Tarjan → Tarjan
unfolding lower
explored visit_one node neighbour none t =
    let t' = visit_one neighbour t in lower node (get_or t'.low neighbour 0) t'
explored visit_one node neighbour (some index) t =
    if get_or t.on_stack neighbour false then lower node index t else t

unfoldable pub explore : (ℕ → Tarjan → Tarjan) → ℕ → ℕ → Tarjan → Tarjan
unfolding explored
explore visit_one node neighbour t =
    explored visit_one node neighbour (get_or t.index neighbour none) t

-- What is popped until the node itself is, and the stack below it.
unfoldable pub pop_until : ℕ → List ℕ → List ℕ × List ℕ
pop_until node [] = ([], [])
pop_until node (member ∷ stack) =
    let (popped, below) = pop_until node stack in
    if member == node then (member ∷ [], stack) else (member ∷ popped, below)

is_root : Option ℕ → ℕ → Bool
is_root none low = false
is_root (some index) low = low == index

unfoldable pub close : ℕ → Tarjan → Tarjan
unfolding pop_until is_root
close node t =
    let (component, below) = pop_until node t.stack in
    if is_root (get_or t.index node none) (get_or t.low node 0)
    then record t {
      stack = below;
      on_stack = for_each component (λ member flags. set flags member false) t.on_stack;
      components = t.components ++ component ∷ [];
    }
    else t

unfoldable pub visit : List (List ℕ) → ℕ → ℕ → Tarjan → Tarjan
unfolding enter explore close
visit adjacency zero node t = t
visit adjacency (suc fuel) node t =
    close node
      (for_each (get_or adjacency node []) (explore (visit adjacency fuel) node) (enter node t))

add_edge : ℕ × ℕ → List (List ℕ) → List (List ℕ)
add_edge (from, to) adjacency = set adjacency from (get_or adjacency from [] ++ to ∷ [])

unfoldable pub adjacency_of : ℕ → List (ℕ × ℕ) → List (List ℕ)
unfolding add_edge
adjacency_of count edges = for_each edges add_edge (replicate count [])

start : ℕ → Tarjan
start count = record {
  index = replicate count none;
  low = replicate count 0;
  on_stack = replicate count false;
  stack = [];
  next = 0;
  components = [];
}

visited : List (List ℕ) → ℕ → ℕ → Option ℕ → Tarjan → Tarjan
visited adjacency fuel node none t = visit adjacency fuel node t
visited adjacency fuel node (some _) t = t

unfoldable pub visit_all : List (List ℕ) → ℕ → ℕ → Tarjan
unfolding visited visit start
visit_all adjacency fuel count =
    for_each (range_from 0 count)
      (λ node t. visited adjacency fuel node (get_or t.index node none) t) (start count)

-- The order of `Vec<usize>`.
unfoldable pub lexicographic : List ℕ → List ℕ → Bool
lexicographic [] ys = true
lexicographic (x ∷ xs) [] = false
lexicographic (x ∷ xs) (y ∷ ys) =
    if ltb x y then true else if x == y then lexicographic xs ys else false

unfoldable pub strongly_connected : ℕ → List (ℕ × ℕ) → List (List ℕ)
unfolding adjacency_of visit_all lexicographic sorted
strongly_connected count edges = sorted lexicographic (
    map (sorted leb) (
      filter (λ component. ltb 1 (length component))
        (visit_all (adjacency_of count edges) count count).components))
