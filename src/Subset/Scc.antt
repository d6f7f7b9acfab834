-- ===== src/Subset/Scc.antt =====
-- findScc and eraseVisited of subset/graph.go: the search over the graph, and the marking of the
-- components over the reversed graph in the reversed order. The result is `g.sscCount`.
pub mod Order
pub mod Marking
pub mod Correct
use greenmask.Common.{
  ℕ, zero, suc, Option, none, List, [], ◌∷◌, reverse, Exec, pure, get_state, modify, ◌>>=◌, ◌>>◌,
  if◌then◌else◌, length,
}
use greenmask.Subset.Dfs.{
  Search, is_visited, each_unvisited, topological_sort_dfs, mark_component_dfs,
}

-- The `n` indices from `i` on.
unfoldable pub range_from : ℕ → ℕ → List ℕ
range_from zero i = []
range_from (suc n) i = i ∷ range_from n (suc i)

-- `sscVertexIsNotVisited` for each vertex
unfoldable pub erase_visited : List (Option ℕ) → List (Option ℕ)
erase_visited [] = []
erase_visited (m ∷ marks) = none ∷ erase_visited marks

-- The first loop of findScc.
unfoldable pub sort_vertices : List (List ℕ) → Exec Search (Unit {0})
sort_vertices graph =
    each_unvisited (topological_sort_dfs graph (length graph)) (range_from (length graph) 0)

-- The second loop: a vertex with no mark starts the next component.
unfoldable pub mark_components : List (List ℕ) → List ℕ → ℕ → Exec Search ℕ
mark_components reversed [] count = pure count
mark_components reversed (v ∷ order) count =
    (is_visited v >>= λ seen.
    if seen
    then pure count
    else (mark_component_dfs reversed count (length reversed) v >> pure (suc count)))
    >>= mark_components reversed order

unfoldable pub find_scc : List (List ℕ) → List (List ℕ) → Exec Search ℕ
find_scc graph reversed =
    modify (λ s. record { visited = erase_visited s.visited; order = [] })
    >> sort_vertices graph
    >> modify (λ s. record { visited = erase_visited s.visited; order = reverse s.order })
    >> (get_state >>= λ s. mark_components reversed s.order 0)
