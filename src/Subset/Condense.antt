-- ===== src/Subset/Condense.antt =====
-- buildCondensedGraph of subset/graph.go, NewGraph as a whole, and sortCondensedEdges of
-- subset/condenced_edge.go.
pub mod Vertexes
pub mod OwnGraph
pub mod Components
pub mod Crossing
pub mod Condensed
pub mod Cycles
use greenmask.Common.{
  ℕ, zero, suc, ◌+◌, Option, none, some, List, [], ◌∷◌, ◌++◌, map, Bool, true, false, Exec, Result,
  ok, err, panicked, stuck, on_ok, if◌then◌else◌, ◌==◌, ltb, length, get_elem?, Bytes, ◌||◌,
}
use greenmask.Subset.Types.{Table, Reference, VirtualReference, Edge}
use greenmask.Subset.Dfs.{Search}
use greenmask.Subset.Scc.{find_scc, sort_vertices}
use greenmask.Subset.Build.{append_at, make_lists, Links, build_links}
use greenmask.Subset.Component.{Component, new_component, is_polymorphic}

pub record ComponentLink : Type 0 where
  pub idx : ℕ
  pub component : Component

pub record CondensedEdge : Type 0 where
  pub id : ℕ
  pub from : ComponentLink
  pub to : ComponentLink
  pub original_edge : Edge

-- `slices.Contains`
unfoldable pub contains : List ℕ → ℕ → Bool
contains [] x = false
contains (y ∷ ys) x = if y == x then true else contains ys x

unfoldable pub is_component : ℕ → Option ℕ → Bool
is_component c none = false
is_component c (some d) = d == c

-- `componentsToOriginalVertexes[c]`, for the vertices from `i` on
unfoldable pub original_vertexes : ℕ → ℕ → List (Option ℕ) → List ℕ
original_vertexes c i [] = []
original_vertexes c i (m ∷ marks) =
    let rest = original_vertexes c (suc i) marks in if is_component c m then i ∷ rest else rest

-- The edges that lead to one of the vertices.
unfoldable pub inner_edges : List ℕ → List Edge → List Edge
inner_edges vertexes [] = []
inner_edges vertexes (e ∷ edges) =
    let rest = inner_edges vertexes edges in if contains vertexes e.to.idx then e ∷ rest else rest

-- `g.tables[v]` and the inner edges of `g.graph[v]` for each vertex of a component.
unfoldable pub component_tables : List Table → List ℕ → Result (List (ℕ × Table))
component_tables tables [] = ok []
component_tables tables (v ∷ vs) = elim (get_elem? tables v) [
  | none ↦ panicked
  | some t ↦ on_ok (component_tables tables vs) λ rest. ok ((v, t) ∷ rest)
]

unfoldable pub component_graph : List (List Edge) → List ℕ → List ℕ → Result (List (ℕ × List Edge))
component_graph graph vertexes [] = ok []
component_graph graph vertexes (v ∷ vs) = elim (get_elem? graph v) [
  | none ↦ panicked
  | some edges ↦
      on_ok (component_graph graph vertexes vs) λ rest. ok ((v, inner_edges vertexes edges) ∷ rest)
]

-- The identifiers that the loop over a component puts into `condensedEdges`.
unfoldable pub edge_ids : List (ℕ × List Edge) → List ℕ
edge_ids [] = []
edge_ids ((v, edges) ∷ graph) = map (λ e. e.id) edges ++ edge_ids graph

-- The condensed graph with its reversed graph, and `condensedEdgeIdxSeq`.
pub record CondensedGraph : Type 0 where
  pub graph : List (List CondensedEdge)
  pub reversed : List (List CondensedEdge)
  pub sequence : ℕ

-- `originalVertexesToComponents[v]` and its component.
unfoldable pub link_of : List (Option ℕ) → List Component → ℕ → Result ComponentLink
link_of marks scc v = elim (get_elem? marks v) [
  | none ↦ panicked
  | some m ↦ elim m [
    | none ↦ panicked
    | some c ↦ elim (get_elem? scc c) [
      | none ↦ panicked
      | some comp ↦ ok (record { idx = c; component = comp })
    ]
  ]
]

-- The body of the loop over all edges.
unfoldable pub condense_edge :
    List (Option ℕ) → List Component → List ℕ → Edge → CondensedGraph → Result CondensedGraph
condense_edge marks scc condensed_edges edge g =
    if contains condensed_edges edge.id
    then ok g
    else on_ok (link_of marks scc edge.from.idx) λ from_link.
      on_ok (link_of marks scc edge.to.idx) λ to_link.
        on_ok
          (append_at g.graph from_link.idx
            (record { id = g.sequence; from = from_link; to = to_link; original_edge = edge }))
          λ graph.
            on_ok
              (append_at g.reversed to_link.idx
                (record { id = g.sequence; from = to_link; to = from_link; original_edge = edge }))
              λ reversed.
                ok (record { graph = graph; reversed = reversed; sequence = suc g.sequence })

unfoldable pub condense_edges :
    List (Option ℕ) → List Component → List ℕ → List Edge → CondensedGraph → Result CondensedGraph
condense_edges marks scc condensed_edges [] g = ok g
condense_edges marks scc condensed_edges (e ∷ edges) g =
    on_ok (condense_edge marks scc condensed_edges e g)
      λ next. condense_edges marks scc condensed_edges edges next

-- `make([]int, n)`, which findScc erases.
unfoldable pub zeros : ℕ → List (Option ℕ)
zeros zero = []
zeros (suc n) = some 0 ∷ zeros n

-- `to.idx` of each edge.
unfoldable pub target_indices : List (List Edge) → List (List ℕ)
target_indices [] = []
target_indices (edges ∷ graph) = map (λ e. e.idx) edges ∷ target_indices graph

-- The fields of Graph that NewGraph sets.
pub record Graph : Type 0 where
  pub tables : List Table
  pub links : Links
  pub marks : List (Option ℕ)
  pub scc_count : ℕ
  pub scc : List Component
  pub condensed : CondensedGraph

module _ (sort_edges : List Edge → List Edge) (sort_strings : List Bytes → List Bytes) where
  -- The loop over the components from `c` on: the components, and the identifiers of their edges.
  unfoldable pub build_components :
      List Table → List (List Edge) → List (Option ℕ) → ℕ → ℕ → Result (List Component × List ℕ)
  build_components tables graph marks zero c = ok ([], [])
  build_components tables graph marks (suc n) c =
      let vertexes = original_vertexes c 0 marks in
      on_ok (component_tables tables vertexes) λ own_tables.
        on_ok (component_graph graph vertexes vertexes) λ own_graph.
          on_ok (new_component sort_edges sort_strings c own_graph own_tables) λ comp.
            on_ok (build_components tables graph marks n (suc c))
              λ rest. ok (comp ∷ rest.0, edge_ids own_graph ++ rest.1)

  unfoldable pub build_condensed_graph : List Table → Links → Result Graph
  build_condensed_graph tables links =
      on_ok
        (find_scc (target_indices links.graph) links.reversed_simple_graph
          (record { visited = zeros (length tables); order = [] }))
        λ found. on_ok (build_components tables links.graph found.1.visited found.0 0) λ built.
          on_ok
            (condense_edges found.1.visited built.0 built.1 links.edges
              (record { graph = make_lists found.0; reversed = make_lists found.0; sequence = 0 }))
            λ condensed. ok (record {
              tables = tables;
              links = links;
              marks = found.1.visited;
              scc_count = found.0;
              scc = built.0;
              condensed = condensed;
            })

  unfoldable pub new_graph :
      (ℕ → Result (List Reference)) → List VirtualReference → List Table → Result Graph
  new_graph get_references vr tables =
      on_ok (build_links get_references vr tables) λ links. build_condensed_graph tables links

-- `edge.to.idx` of each condensed edge.
unfoldable pub condensed_indices : List (List CondensedEdge) → List (List ℕ)
condensed_indices [] = []
condensed_indices (edges ∷ graph) = map (λ e. e.to.idx) edges ∷ condensed_indices graph

-- `make([]bool, n)`
unfoldable pub none_visited : ℕ → List (Option ℕ)
none_visited zero = []
none_visited (suc n) = none ∷ none_visited n

-- Its search is that of Graph.topologicalSortDfs over `visited []bool`: a mark stands for `true`.
unfoldable pub sort_condensed_edges : List (List CondensedEdge) → Result (List ℕ)
sort_condensed_edges graph =
    on_ok
      (sort_vertices (condensed_indices graph)
        (record { visited = none_visited (length graph); order = [] }))
      λ found. ok found.1.order
