-- ===== src/Subset/Component.antt =====
-- subset/component.go: the cycles of a component, found by a depth-first search over its edges. The
-- order of `sort.Slice` and `slices.Sort` and that of a range over a map are parameters.
pub mod Cycles
pub mod Assign
pub mod Search
pub mod Found
pub mod Whole
pub mod HasCycle
use greenmask.Common.{
  ℕ, zero, suc, ◌+◌, Option, none, some, List, [], ◌∷◌, ◌++◌, map, Bool, true, false, not, ◌&&◌,
  ◌||◌, Exec, ok, panicked, pure, panic, out_of_fuel, get_state, modify, ◌>>=◌, ◌>>◌, Result, err,
  stuck, if◌then◌else◌, ◌==◌, ltb, length, get_elem?, reverse, Bytes, bytes_eq, codes, format_uint,
}
use greenmask.Subset.Types.{Table, TableLink, Edge}

-- A map from vertices: the value of the first entry with the key.
unfoldable pub lookup {ℓ} : {A : Type ℓ} → List (ℕ × A) → ℕ → Option A
lookup [] v = none
lookup ((u, a) ∷ entries) v = if u == v then some a else lookup entries v

-- `c.componentGraph[v]`
unfoldable pub edges_of : List (ℕ × List Edge) → ℕ → List Edge
edges_of graph v = elim (lookup graph v) [ none ↦ [] | some edges ↦ edges ]

-- `grouped_cycles` has an entry for each group, in the order of their first cycles.
pub record Component : Type 0 where
  pub id : ℕ
  pub component_graph : List (ℕ × List Edge)
  pub tables : List (ℕ × Table)
  pub cycles : List (List Edge)
  pub cycles_idents : List Bytes
  pub grouped_cycles : List (Bytes × List ℕ)

unfoldable pub join : Bytes → List Bytes → Bytes
join sep [] = []
join sep (x ∷ []) = x
join sep (x ∷ y ∷ xs) = x ++ sep ++ join sep (y ∷ xs)

unfoldable pub contains_bytes : Bytes → List Bytes → Bool
contains_bytes x [] = false
contains_bytes x (y ∷ ys) = if bytes_eq x y then true else contains_bytes x ys

-- `c.groupedCycles[id] = append(c.groupedCycles[id], idx)`
unfoldable pub append_group : List (Bytes × List ℕ) → Bytes → ℕ → List (Bytes × List ℕ)
append_group [] id idx = (id, idx ∷ []) ∷ []
append_group ((key, idxs) ∷ groups) id idx =
    let rest = append_group groups id idx in
    if bytes_eq key id then (key, idxs ++ idx ∷ []) ∷ groups else (key, idxs) ∷ rest

-- The maps and the results of the search.
pub record CycleSearch : Type 0 where
  pub visited : ℕ → Bool
  pub rec_stack : ℕ → Bool
  pub cycles : List (List Edge)
  pub cycles_idents : List Bytes

-- `m[v] = b`
unfoldable pub assign : (ℕ → Bool) → ℕ → Bool → ℕ → Bool
assign m v b u = if v == u then b else m u

-- The edges back from the end of the path to the one from `target`, or all.
unfoldable pub walk_back : ℕ → List Edge → List Edge
walk_back target [] = []
walk_back target (e ∷ path) =
    let rest = walk_back target path in if e.from.idx == target then e ∷ [] else e ∷ rest

module _ (sort_edges : List Edge → List Edge) (sort_strings : List Bytes → List Bytes) where
  unfoldable pub get_cycle_group_id : List Edge → Bytes
  get_cycle_group_id cycle = join (codes "_") (sort_strings (map (λ e. format_uint e.to.idx) cycle))

  unfoldable pub get_cycle_id : List Edge → Bytes
  get_cycle_id cycle = join (codes "_") (sort_strings (map (λ e. format_uint e.id) cycle))

  -- "Cycle detected": `path` ends with `to`.
  unfoldable pub record_cycle : List Edge → Edge → Exec CycleSearch (Unit {0})
  record_cycle path to s =
      let cycle = walk_back to.to.idx (reverse path) in
      if contains_bytes (get_cycle_id cycle) s.cycles_idents
      then ok (tt, s)
      else ok (
        tt,
        record s {
          cycles = s.cycles ++ reverse cycle ∷ [];
          cycles_idents = get_cycle_id cycle ∷ s.cycles_idents;
        },
      )

  -- The loop over the sorted edges of a vertex.
  unfoldable pub each_cycle_edge :
      (ℕ → List Edge → Exec CycleSearch (Unit {0}))
      → List Edge
      → List Edge
      → Exec CycleSearch (Unit {0})
  each_cycle_edge again path [] = pure tt
  each_cycle_edge again path (to ∷ edges) =
      (get_state >>= λ s.
      if s.visited to.idx
      then (if s.rec_stack to.idx then record_cycle (path ++ to ∷ []) to else pure tt)
      else again to.idx (path ++ to ∷ []))
      >> each_cycle_edge again path edges

  unfoldable pub find_all_cycles_dfs :
      List (ℕ × List Edge) → ℕ → ℕ → List Edge → Exec CycleSearch (Unit {0})
  find_all_cycles_dfs graph zero v path = out_of_fuel
  find_all_cycles_dfs graph (suc fuel) v path =
      modify
        (λ s. record s { visited = assign s.visited v true; rec_stack = assign s.rec_stack v true })
      >> each_cycle_edge (find_all_cycles_dfs graph fuel) path (sort_edges (edges_of graph v))
      >> modify (λ s. record s { rec_stack = assign s.rec_stack v false })

  -- The loop of findCycles over the vertices of the component.
  unfoldable pub each_vertex : List (ℕ × List Edge) → List ℕ → Exec CycleSearch (Unit {0})
  each_vertex graph [] = pure tt
  each_vertex graph (v ∷ vertices) =
      (get_state >>= λ s.
      if s.visited v then pure tt else find_all_cycles_dfs graph (length graph) v [])
      >> each_vertex graph vertices

  unfoldable pub find_cycles : List (ℕ × List Edge) → List ℕ → Exec CycleSearch (Unit {0})
  find_cycles graph vertices =
      modify (λ s. record s { visited = λ v. false; rec_stack = λ v. false })
      >> each_vertex graph vertices

  -- groupCycles: the cycles from the index `idx` on.
  unfoldable pub group_cycles : ℕ → List (List Edge) → List (Bytes × List ℕ) → List (Bytes × List ℕ)
  group_cycles idx [] groups = groups
  group_cycles idx (cycle ∷ cycles) groups =
      group_cycles (suc idx) cycles (append_group groups (get_cycle_group_id cycle) idx)

  -- NewComponent, less buildCyclesGraph, whose result nothing else reads. The vertices of the graph
  -- are passed in their order.
  unfoldable pub new_component : ℕ → List (ℕ × List Edge) → List (ℕ × Table) → Result Component
  new_component id graph tables =
      elim (find_cycles graph (map (λ entry. entry.0) graph) (record {
        visited = λ v. false;
        rec_stack = λ v. false;
        cycles = [];
        cycles_idents = [];
      })) [
        | ok (_, s) ↦ ok (record {
          id = id;
          component_graph = graph;
          tables = tables;
          cycles = s.cycles;
          cycles_idents = s.cycles_idents;
          grouped_cycles = group_cycles 0 s.cycles [];
        })
        | err e ↦ err e
        | panicked ↦ panicked
        | stuck ↦ stuck
      ]

unfoldable pub has_cycle : Component → Bool
has_cycle c = ltb 0 (length c.cycles)

-- An edge with a polymorphic expression on either side.
unfoldable pub is_polymorphic : Edge → Bool
is_polymorphic e = ltb 0 (length e.from.polymorphic_exprs) || ltb 0 (length e.to.polymorphic_exprs)

unfoldable pub any_polymorphic : List Edge → Bool
any_polymorphic [] = false
any_polymorphic (e ∷ edges) = if is_polymorphic e then true else any_polymorphic edges

unfoldable pub has_polymorphic_expressions : List (ℕ × List Edge) → Bool
has_polymorphic_expressions [] = false
has_polymorphic_expressions ((v, edges) ∷ graph) =
    if any_polymorphic edges then true else has_polymorphic_expressions graph

-- The conditions of the tables, in the order of the range over them.
unfoldable pub get_subset_conds : List (ℕ × Table) → List Bytes
get_subset_conds [] = []
get_subset_conds ((v, t) ∷ tables) = t.subset_conds ++ get_subset_conds tables

-- The first table of the range, unless there is a cycle or no table.
unfoldable pub get_one_table : Component → Result Table
get_one_table c =
    if has_cycle c then panicked else elim c.tables [ [] ↦ panicked | entry ∷ rest ↦ ok entry.1 ]

-- `c.cycles[idx]` for each index
unfoldable pub pick_cycles : List (List Edge) → List ℕ → Result (List (List Edge))
pick_cycles cycles [] = ok []
pick_cycles cycles (idx ∷ idxs) = elim (get_elem? cycles idx) [
  | none ↦ panicked
  | some cycle ↦ elim (pick_cycles cycles idxs) [
    | ok rest ↦ ok (cycle ∷ rest)
    | err e ↦ err e
    | panicked ↦ panicked
    | stuck ↦ stuck
  ]
]

unfoldable pub get_one_cycle_group : Component → Result (List (List Edge))
get_one_cycle_group c = elim c.grouped_cycles [
  | [] ↦ panicked
  | group ∷ groups ↦ elim groups [ [] ↦ pick_cycles c.cycles group.1 | other ∷ rest ↦ panicked ]
]
