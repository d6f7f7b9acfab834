-- ===== src/Subset/Sorted.antt =====
-- GetSortedTablesAndDependenciesGraph of subset/graph.go. The order of a range over the map of the
-- tables of a component is a parameter.
pub mod Order
pub mod Dependencies
pub mod Oids
pub mod Correct
use greenmask.Common.{
  ℕ, zero, suc, ◌+◌, Option, none, some, List, [], ◌∷◌, ◌++◌, map, Result, ok, panicked, on_ok,
  Bool, if◌then◌else◌, ◌==◌, length, get_elem?, reverse,
}
use greenmask.Subset.Types.{Table}
use greenmask.Subset.Component.{Component}
use greenmask.Subset.Condense.{
  ComponentLink, CondensedEdge, CondensedGraph, Graph, sort_condensed_edges,
}

-- `map[toolkit.Oid][]toolkit.Oid`
abbrev pub Dependencies : Type 0
Dependencies = ℕ → Option (List ℕ)

-- `m[oid] = make([]toolkit.Oid, 0)`
unfoldable pub reset : ℕ → Dependencies → Dependencies
reset oid m u = if oid == u then some [] else m u

-- `m[oid] = append(m[oid], dst)`
unfoldable pub append_dependency : ℕ → ℕ → Dependencies → Dependencies
append_dependency oid dst m u =
    if oid == u then some ((elim (m oid) [ none ↦ [] | some xs ↦ xs ]) ++ dst ∷ []) else m u

module _ (range : List (ℕ × Table) → List (ℕ × Table)) where
  unfoldable pub component_oids : Component → List ℕ
  component_oids c = map (λ entry. entry.1.oid) (range c.tables)

  -- The tables of the components in the order of the condensed graph.
  unfoldable pub collect_tables : List Component → List ℕ → Result (List ℕ)
  collect_tables scc [] = ok []
  collect_tables scc (idx ∷ order) = elim (get_elem? scc idx) [
    | none ↦ panicked
    | some c ↦ on_ok (collect_tables scc order) λ rest. ok (component_oids c ++ rest)
  ]

  unfoldable pub reset_all : List ℕ → Dependencies → Dependencies
  reset_all [] m = m
  reset_all (oid ∷ oids) m = reset_all oids (reset oid m)

  unfoldable pub append_all : ℕ → List ℕ → Dependencies → Dependencies
  append_all src [] m = m
  append_all src (dst ∷ dsts) m = append_all src dsts (append_dependency src dst m)

  unfoldable pub append_tables : List ℕ → List ℕ → Dependencies → Dependencies
  append_tables [] dsts m = m
  append_tables (src ∷ srcs) dsts m = append_tables srcs dsts (append_all src dsts m)

  -- The loop over the edges at a component of the reversed condensed graph.
  unfoldable pub add_edges : List CondensedEdge → Dependencies → Dependencies
  add_edges [] m = m
  add_edges (e ∷ edges) m =
      add_edges edges
        (append_tables (component_oids e.to.component) (component_oids e.from.component) m)

  -- The loop over the reversed condensed graph, from the component `idx` on.
  unfoldable pub build_dependencies :
      List Component → ℕ → List (List CondensedEdge) → Dependencies → Result Dependencies
  build_dependencies scc idx [] m = ok m
  build_dependencies scc idx (edges ∷ rest) m = elim (get_elem? scc idx) [
    | none ↦ panicked
    | some c ↦
        build_dependencies scc (suc idx) rest (add_edges edges (reset_all (component_oids c) m))
  ]

  unfoldable pub get_sorted_tables_and_dependencies_graph : Graph → Result (List ℕ × Dependencies)
  get_sorted_tables_and_dependencies_graph g =
      on_ok (sort_condensed_edges g.condensed.reversed) λ order.
        on_ok (collect_tables g.scc order) λ tables.
          on_ok (build_dependencies g.scc 0 g.condensed.reversed (λ oid. none))
            λ dependencies. ok (reverse tables, dependencies)
