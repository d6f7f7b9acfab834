-- ===== src/Subset/Dfs.antt =====
-- The depth-first searches of subset/graph.go and subset/condenced_edge.go. A vertex is an index, and
-- the graph is the list of the target indices of each vertex. A recursion goes as deep as there are
-- vertices that are not visited yet, and that is its fuel.
pub mod Marks
pub mod PostOrder
pub mod Flood
use greenmask.Common.{
  ℕ, zero, suc, ◌+◌, Option, none, some, List, [], ◌∷◌, ◌++◌, Bool, true, false, Exec, ok, panicked,
  pure, panic, out_of_fuel, get_state, modify, ◌>>=◌, ◌>>◌, if◌then◌else◌, ltb, length, get_elem?,
  set,
}

-- `visited` holds `none` for sscVertexIsNotVisited.
pub record Search : Type 0 where
  pub visited : List (Option ℕ)
  pub order : List ℕ

-- `graph[v]`
unfoldable pub row : List (List ℕ) → ℕ → Exec Search (List ℕ)
row graph v s = elim (get_elem? graph v) [ none ↦ panicked | some ws ↦ ok (ws, s) ]

-- `visited[v] != sscVertexIsNotVisited`
unfoldable pub is_visited : ℕ → Exec Search Bool
is_visited v s = elim (get_elem? s.visited v) [
  | none ↦ panicked
  | some m ↦ elim m [ none ↦ ok (false, s) | some c ↦ ok (true, s) ]
]

-- `visited[v] = m`
unfoldable pub mark : ℕ → ℕ → Exec Search (Unit {0})
mark m v s =
    if ltb v (length s.visited)
    then ok (tt, record s { visited = set s.visited v (some m) })
    else panicked

-- `order = append(order, v)`
abbrev pub push : ℕ → Exec Search (Unit {0})
push v s = ok (tt, record s { order = s.order ++ v ∷ [] })

-- The loop over the targets, or over all vertices, that calls the search for those not visited.
unfoldable pub each_unvisited : (ℕ → Exec Search (Unit {0})) → List ℕ → Exec Search (Unit {0})
unfolding is_visited
each_unvisited again [] = pure tt
each_unvisited again (w ∷ ws) =
    (is_visited w >>= λ seen. if seen then pure tt else again w) >> each_unvisited again ws

unfoldable pub topological_sort_dfs : List (List ℕ) → ℕ → ℕ → Exec Search (Unit {0})
unfolding row mark each_unvisited
topological_sort_dfs graph zero v = out_of_fuel
topological_sort_dfs graph (suc fuel) v =
    mark 1 v >> (row graph v >>= each_unvisited (topological_sort_dfs graph fuel)) >> push v

unfoldable pub mark_component_dfs : List (List ℕ) → ℕ → ℕ → ℕ → Exec Search (Unit {0})
unfolding row mark each_unvisited
mark_component_dfs graph component zero v = out_of_fuel
mark_component_dfs graph component (suc fuel) v =
    mark component v >> (row graph v >>= each_unvisited (mark_component_dfs graph component fuel))
