-- ===== src/Subset/Tests.antt =====
-- The theorems on the subset graph at three tables: two that refer to each other, and one that the
-- second refers to.
use greenmask.Common.{
  ℕ, zero, suc, String, ◌≡◌, ◌⊎◌, ◌↔◌, ◌<◌, inl, inr, refl, sym, ap, ◌∙◌, Option, none, some, List,
  [], ◌∷◌, Bool, true, false, map, Result, Error, ok, err, panicked, stuck, wrap, length, get_elem?,
  codes, Bytes, arith,
}
use greenmask.Subset.Reach.{Elem, targets}
use greenmask.Subset.Types.{Table, Reference, VirtualReference, Edge, TableLink}
use greenmask.Subset.Dfs.{Search}
use greenmask.Subset.Dfs.PostOrder.{IsGraph}
use greenmask.Subset.Dfs.Flood.{IsReversed}
use greenmask.Subset.Scc.{find_scc}
use greenmask.Subset.Scc.Correct.{IsComponents, find_scc-IsComponents}
use greenmask.Subset.Component.{
  Component, edges_of, lookup, new_component, has_cycle, get_one_table,
}
use greenmask.Subset.Component.Cycles.{IsCycle, IsInner, edges_of-key}
use greenmask.Subset.Component.HasCycle.{has_cycle-new_component}
use greenmask.Subset.Component.Search.{IsSort}
use greenmask.Subset.Build.Outcome.{Answers}
use greenmask.Subset.Build.Arrows.{IsReferenced}
use greenmask.Subset.Condense.{Graph, new_graph}
use greenmask.Subset.Condense.Condensed.{IsNewGraph, length-target_indices, new_graph-IsNewGraph}
use greenmask.Subset.Condense.Cycles.{get_one_table-ok}
use greenmask.Subset.Sorted.{Dependencies, get_sorted_tables_and_dependencies_graph}
use greenmask.Subset.Sorted.Oids.{IsRange}
use greenmask.Subset.Sorted.Correct.{IsTopological, get_sorted_tables-IsTopological}

abbrev arrows : List (List ℕ)
arrows = (1 ∷ []) ∷ (0 ∷ 2 ∷ []) ∷ [] ∷ []

abbrev turned : List (List ℕ)
turned = (1 ∷ []) ∷ (0 ∷ []) ∷ (1 ∷ []) ∷ []

arrows-IsGraph : IsGraph arrows
arrows-IsGraph zero w (inl e) = omega arith
arrows-IsGraph zero w (inr h) = absurd h
arrows-IsGraph (suc zero) w (inl e) = omega arith
arrows-IsGraph (suc zero) w (inr (inl e)) = omega arith
arrows-IsGraph (suc zero) w (inr (inr h)) = absurd h
arrows-IsGraph (suc (suc zero)) w h = absurd h
arrows-IsGraph (suc (suc (suc u))) w h = absurd h

turned-IsReversed : IsReversed arrows turned
turned-IsReversed = record { same_length = refl; back = back; forth = forth }
  where
    back : (u w : ℕ) → Elem w (targets arrows u) → Elem u (targets turned w)
    back zero w (inl e) = rw e (inl refl)
    back zero w (inr h) = absurd h
    back (suc zero) w (inl e) = rw e (inl refl)
    back (suc zero) w (inr (inl e)) = rw e (inl refl)
    back (suc zero) w (inr (inr h)) = absurd h
    back (suc (suc zero)) w h = absurd h
    back (suc (suc (suc u))) w h = absurd h

    forth : (u w : ℕ) → Elem u (targets turned w) → Elem w (targets arrows u)
    forth u zero (inl e) = rw e (inl refl)
    forth u zero (inr h) = absurd h
    forth u (suc zero) (inl e) = rw e (inl refl)
    forth u (suc zero) (inr h) = absurd h
    forth u (suc (suc zero)) (inl e) = rw e (inr (inl refl))
    forth u (suc (suc zero)) (inr h) = absurd h
    forth u (suc (suc (suc w))) h = absurd h

find_scc-IsComponents_example :
    (n : ℕ) × (t : Search) × (find_scc arrows turned
        (record { visited = some 0 ∷ some 0 ∷ some 0 ∷ []; order = [] })
      ≡ ok (n, t))
    × IsComponents arrows n t.visited
find_scc-IsComponents_example =
    find_scc-IsComponents arrows turned arrows-IsGraph turned-IsReversed
      (record { visited = some 0 ∷ some 0 ∷ some 0 ∷ []; order = [] }) refl

abbrev table : String → ℕ → Table
table name oid = record {
  schema = codes "public";
  name = codes name;
  oid = oid;
  primary_key = codes "id" ∷ [];
  subset_conds = [];
}

abbrev tables : List Table
tables = table "users" 0 ∷ table "orders" 1 ∷ table "goods" 2 ∷ []

abbrev refers : String → Reference
refers name = record {
  schema = codes "public";
  name = codes name;
  referenced_keys = codes "ref" ∷ [];
  ref_table_keys = codes "id" ∷ [];
  is_nullable = false;
}

abbrev rows : ℕ → List Reference
rows zero = refers "orders" ∷ []
rows (suc zero) = refers "users" ∷ refers "missing" ∷ []
rows (suc (suc n)) = []

abbrev get_references : ℕ → Result (List Reference)
get_references oid = ok (rows oid)

abbrev configured : List VirtualReference
configured =
    record {
      schema = codes "public";
      name = codes "orders";
      references =
          record {
            schema = codes "public";
            name = codes "goods";
            not_null = true;
            columns = record { name = codes "good"; expression = [] } ∷ [];
            polymorphic_exprs = [];
          }
          ∷ [];
    }
    ∷ []

abbrev unsorted : List Edge → List Edge
unsorted edges = edges

abbrev unsorted_ids : List Bytes → List Bytes
unsorted_ids ids = ids

unsorted-IsSort : IsSort unsorted
unsorted-IsSort = record { sorts = λ e edges h. h; sorted = λ e edges h. h }

answers : Answers get_references configured tables
answers oid = inl (rows oid, refl)

new_graph-IsNewGraph_example :
    ((g : Graph) × (new_graph unsorted unsorted_ids get_references configured tables ≡ ok g)
      × IsNewGraph tables g
      × IsReferenced get_references configured tables g.links)
    ⊎ ((oid : ℕ) × (e : Error) × (get_references oid ≡ err e)
        × (new_graph unsorted unsorted_ids get_references configured tables
            ≡ err (wrap "error getting references" e)))
new_graph-IsNewGraph_example =
    new_graph-IsNewGraph tables unsorted unsorted_ids unsorted-IsSort get_references configured
      answers

-- The graph of the tables.
found :
    (g : Graph) × (new_graph unsorted unsorted_ids get_references configured tables ≡ ok g)
    × IsNewGraph tables g
    × IsReferenced get_references configured tables g.links
found = elim new_graph-IsNewGraph_outcome [
  | inl g ↦ g
  | inr (oid, e, failed, run) ↦ absurd (answered (rows oid) e failed)
]
  where
    answered :
        (refs : List Reference) (e : Error)
        → ◌≡◌ {A = Result (List Reference)} (ok refs) (err e)
        → ⊥
    answered refs e h = cc

    new_graph-IsNewGraph_outcome :
        ((g : Graph) × (new_graph unsorted unsorted_ids get_references configured tables ≡ ok g)
          × IsNewGraph tables g
          × IsReferenced get_references configured tables g.links)
        ⊎ ((oid : ℕ) × (e : Error) × (get_references oid ≡ err e)
            × (new_graph unsorted unsorted_ids get_references configured tables
                ≡ err (wrap "error getting references" e)))
    new_graph-IsNewGraph_outcome =
        new_graph-IsNewGraph tables unsorted unsorted_ids unsorted-IsSort get_references configured
          answers

abbrev graph : Graph
graph = found.0

graph-IsNewGraph : IsNewGraph tables graph
graph-IsNewGraph = found.2

-- The component of the vertex.
component_at : (v : ℕ) → v < 3 → (c : ℕ) × (comp : Component) × (get_elem? graph.scc c ≡ some comp)
component_at v lt =
    let (c, at, c_lt) = graph-IsNewGraph.components.numbered v (
      omega
        (arith, lt, length-target_indices graph.links.graph, graph-IsNewGraph.linked.graph_size)) in
    let (comp, at', is_comp) = graph-IsNewGraph.each c c_lt in (c, comp, at')

abbrev users : (c : ℕ) × (comp : Component) × (get_elem? graph.scc c ≡ some comp)
users = component_at 0 (omega arith)

-- Two tables that refer to each other.
abbrev link : ℕ → TableLink
link v = record { idx = v; table = table "users" v; keys = []; polymorphic_exprs = [] }

abbrev mutual_edge : ℕ → ℕ → Edge
mutual_edge v w = record { id = v; idx = w; is_nullable = false; from = link v; to = link w }

abbrev mutual_graph : List (ℕ × List Edge)
mutual_graph = (0, mutual_edge 0 1 ∷ []) ∷ (1, mutual_edge 1 0 ∷ []) ∷ []

mutual_graph-IsInner : IsInner mutual_graph
unfolding edges_of lookup
mutual_graph-IsInner zero e (inl h) = rw h (refl, refl, inr (inl refl))
mutual_graph-IsInner zero e (inr h) = absurd h
mutual_graph-IsInner (suc zero) e (inl h) = rw h (refl, refl, inl refl)
mutual_graph-IsInner (suc zero) e (inr h) = absurd h
mutual_graph-IsInner (suc (suc v)) e h = elim (edges_of-key mutual_graph (suc (suc v)) e h) [
  | inl p ↦ absurd (omega (arith, p))
  | inr m ↦ elim m [ inl p ↦ absurd (omega (arith, p)) | inr n ↦ absurd n ]
]

has_cycle-new_component_example :
    (comp : Component) × (new_component unsorted unsorted_ids 7 mutual_graph [] ≡ ok comp)
    × ((has_cycle comp ≡ true) ↔ ((walk : List Edge) × IsCycle mutual_graph walk))
has_cycle-new_component_example =
    has_cycle-new_component unsorted unsorted_ids 7 mutual_graph [] unsorted-IsSort
      mutual_graph-IsInner

abbrev ranged : List (ℕ × Table) → List (ℕ × Table)
ranged entries = entries

ranged-IsRange : IsRange ranged
ranged-IsRange = record { all = λ entry own h. h; only = λ entry own h. h }

oid_of : (v : ℕ) (a : Table) → get_elem? tables v ≡ some a → a.oid ≡ v
oid_of zero a h = ap (λ t. t.oid) (sym (the_table (table "users" 0) a h))
  where
    the_table : (x y : Table) → some x ≡ some y → x ≡ y
    the_table x y e = cc
oid_of (suc zero) a h = ap (λ t. t.oid) (sym (the_table (table "orders" 1) a h))
  where
    the_table : (x y : Table) → some x ≡ some y → x ≡ y
    the_table x y e = cc
oid_of (suc (suc zero)) a h = ap (λ t. t.oid) (sym (the_table (table "goods" 2) a h))
  where
    the_table : (x y : Table) → some x ≡ some y → x ≡ y
    the_table x y e = cc
oid_of (suc (suc (suc v))) a h = cc

get_sorted_tables-IsTopological_example :
    (sorted : List ℕ) × (dependencies : Dependencies) × (get_sorted_tables_and_dependencies_graph
        ranged graph
      ≡ ok (sorted, dependencies))
    × IsTopological tables graph sorted dependencies
get_sorted_tables-IsTopological_example =
    get_sorted_tables-IsTopological ranged ranged-IsRange tables graph graph-IsNewGraph
      (λ v w a b at at' e. sym (oid_of v a at) ∙ e ∙ oid_of w b at')

abbrev cycles_of : Result Graph → List Bool
cycles_of (ok g) = map has_cycle g.scc
cycles_of (err e) = []
cycles_of panicked = []
cycles_of stuck = []

-- The component of the third table has no cycle.
graph-cycles :
    cycles_of (new_graph unsorted unsorted_ids get_references configured tables) ≡ true ∷ false ∷ []
unfolding new_graph has_cycle find_scc greenmask.Common.format_uint
    greenmask.Subset.Build.build_links greenmask.Subset.Build.add_tables
    greenmask.Subset.Build.add_table greenmask.Subset.Build.each_in
    greenmask.Subset.Build.add_reference greenmask.Subset.Build.find_table
    greenmask.Subset.Build.index_func greenmask.Subset.Build.append_at
    greenmask.Subset.Build.make_lists greenmask.Subset.Build.get_virtual_references
    greenmask.Subset.Build.add_virtual_reference greenmask.Subset.Build.new_keys_by_column
    greenmask.Subset.Build.new_keys_by_referenced_column greenmask.Subset.Build.new_table_link
    greenmask.Subset.Component.append_group greenmask.Subset.Component.assign
    greenmask.Subset.Component.contains_bytes greenmask.Subset.Component.each_cycle_edge
    greenmask.Subset.Component.each_vertex greenmask.Subset.Component.edges_of
    greenmask.Subset.Component.find_all_cycles_dfs greenmask.Subset.Component.find_cycles
    greenmask.Subset.Component.get_cycle_group_id greenmask.Subset.Component.get_cycle_id
    greenmask.Subset.Component.group_cycles greenmask.Subset.Component.join
    greenmask.Subset.Component.lookup greenmask.Subset.Component.new_component
    greenmask.Subset.Component.record_cycle greenmask.Subset.Component.walk_back
    greenmask.Subset.Condense.build_condensed_graph greenmask.Subset.Condense.target_indices
    greenmask.Subset.Condense.build_components greenmask.Subset.Condense.component_graph
    greenmask.Subset.Condense.component_tables greenmask.Subset.Condense.condense_edge
    greenmask.Subset.Condense.condense_edges greenmask.Subset.Condense.contains
    greenmask.Subset.Condense.edge_ids greenmask.Subset.Condense.inner_edges
    greenmask.Subset.Condense.is_component greenmask.Subset.Condense.link_of
    greenmask.Subset.Condense.original_vertexes greenmask.Subset.Condense.zeros
    greenmask.Subset.Scc.sort_vertices greenmask.Subset.Scc.range_from
    greenmask.Subset.Scc.erase_visited greenmask.Subset.Scc.mark_components
    greenmask.Subset.Dfs.each_unvisited greenmask.Subset.Dfs.is_visited greenmask.Subset.Dfs.mark
    greenmask.Subset.Dfs.mark_component_dfs greenmask.Subset.Dfs.row
    greenmask.Subset.Dfs.topological_sort_dfs
graph-cycles = refl

second :
    (xs : List Component)
    → map has_cycle xs ≡ true ∷ false ∷ []
    → (y : Component) × (get_elem? xs 1 ≡ some y) × (has_cycle y ≡ false)
second [] h = cc
second (x ∷ []) h = cc
second (x ∷ y ∷ []) h = (y, refl, last (has_cycle x) (has_cycle y) h)
  where
    last : (a b : Bool) → a ∷ b ∷ [] ≡ true ∷ false ∷ [] → b ≡ false
    last a b e = cc
second (x ∷ y ∷ z ∷ xs) h =
    absurd (longer (has_cycle x) (has_cycle y) (has_cycle z) (map has_cycle xs) h)
  where
    longer : (a b c : Bool) (ds : List Bool) → a ∷ b ∷ c ∷ ds ≡ true ∷ false ∷ [] → ⊥
    longer a b c ds e = cc

abbrev goods : (y : Component) × (get_elem? graph.scc 1 ≡ some y) × (has_cycle y ≡ false)
goods = second graph.scc (ap cycles_of (sym (found.1)) ∙ graph-cycles)

get_one_table-ok_example :
    (v : ℕ) × (t : Table) × (goods.0.tables ≡ (v, t) ∷ [])
    × (get_elem? tables v ≡ some t)
    × (get_one_table goods.0 ≡ ok t)
get_one_table-ok_example = get_one_table-ok tables graph graph-IsNewGraph 1 goods.0 goods.1 goods.2
