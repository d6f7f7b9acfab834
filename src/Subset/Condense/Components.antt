-- ===== src/Subset/Condense/Components.antt =====
-- The loop over the components in buildCondensedGraph of subset/graph.go.
use greenmask.Common.{
  ℕ, zero, suc, ◌+◌, ◌<◌, ◌≡◌, inl, inr, refl, sym, ap, subst, Option, some, List, [], ◌∷◌, ◌++◌,
  false, length, get_elem?, ok, Bytes, arith,
}
use greenmask.Subset.Reach.{Elem, Elem-left, Elem-right, Elem-append}
use greenmask.Subset.Types.{Table, Edge}
use greenmask.Subset.Component.{Component, group_cycles, new_component}
use greenmask.Subset.Component.Cycles.{keys, IsInner}
use greenmask.Subset.Component.Search.{IsSort}
use greenmask.Subset.Component.Whole.{IsCycles, find_cycles-IsCycles}
use greenmask.Subset.Component.HasCycle.{map-keys}
use greenmask.Subset.Build.{Links}
use greenmask.Subset.Build.Appends.{entries}
use greenmask.Subset.Build.Edges.{IsLinked}
use greenmask.Subset.Condense.{
  original_vertexes, component_tables, component_graph, edge_ids, build_components,
}
use greenmask.Subset.Condense.Vertexes.{
  IsComponentGraph, original_vertexes-mark, mark-original_vertexes,
}
use greenmask.Subset.Condense.OwnGraph.{get-some, component_graph_ok}

-- A table of a component is the table at its key.
abbrev pub IsTables : List Table → List (ℕ × Table) → Type 0
IsTables tables [] = Unit
IsTables tables ((v, t) ∷ own) = (get_elem? tables v ≡ some t) × IsTables tables own

component_tables_ok :
    (tables : List Table) (vs : List ℕ)
    → ((v : ℕ) → Elem v vs → v < length tables)
    → (own : List (ℕ × Table)) × (component_tables tables vs ≡ ok own)
      × (keys own ≡ vs)
      × IsTables tables own
unfolding component_tables
component_tables_ok tables [] small = ([], refl, refl, tt)
component_tables_ok tables (v ∷ vs) small =
    let (t, at) = get-some tables v (small v (inl refl)) in
    let (own, run, same, good) = component_tables_ok tables vs (λ u h. small u (inr h)) in
    ((v, t) ∷ own, rw (component_tables, at, run) refl, ap (λ ks. v ∷ ks) same, (at, good))

-- The component `c` has the vertices with its mark, their tables and the edges between them. The
-- cycles it records are closed walks of its graph, and it records one if there is any.
pub record IsComponent (tables : List Table) (graph : List (List Edge)) (marks : List (Option ℕ))
    (c : ℕ) (comp : Component) : Type 0 where
  pub numbered : comp.id ≡ c
  pub own_graph :
      IsComponentGraph graph
        (original_vertexes c 0 marks)
        (original_vertexes c 0 marks)
        comp.component_graph
  pub own_tables : keys comp.tables ≡ original_vertexes c 0 marks
  pub tabled : IsTables tables comp.tables
  pub is_cycles : IsCycles comp.component_graph comp.cycles

module _ (sort_edges : List Edge → List Edge) (sort_strings : List Bytes → List Bytes)
    (is_sort : IsSort sort_edges) (tables : List Table) (l : Links)
    (linked : IsLinked (length tables) l) (marks : List (Option ℕ))
    (small : (v c : ℕ) → get_elem? marks v ≡ some (some c) → v < length tables) where
  in_component :
      (c v : ℕ) → Elem v (original_vertexes c 0 marks) → get_elem? marks v ≡ some (some c)
  in_component c v h =
      let (k, p, at) = original_vertexes-mark c 0 marks v h in
      let q : k ≡ v = omega (arith, p) in subst (λ j. get_elem? marks j ≡ some (some c)) q at

  pub of_component :
      (c v : ℕ) → get_elem? marks v ≡ some (some c) → Elem v (original_vertexes c 0 marks)
  of_component c v at =
      let q : 0 + v ≡ v = omega arith in
      subst (λ j. Elem j (original_vertexes c 0 marks)) q (mark-original_vertexes c 0 marks v at)

  IsInner-own :
      (vertexes : List ℕ) (own : List (ℕ × List Edge))
      → IsComponentGraph l.graph vertexes vertexes own
      → IsInner own
  IsInner-own vertexes own good v e h =
      let (m, n) = good.inside v e h in
      let to : e.to.idx ≡ e.idx = (linked.target v e m).0 in
      (
        linked.source v e m,
        to,
        subst (λ ks. Elem e.idx ks) (sym good.all_keys) (subst (λ k. Elem k vertexes) to n),
      )

  IsComponent-new :
      (c : ℕ) (own : List (ℕ × List Edge)) (own_tables : List (ℕ × Table))
      → IsComponentGraph l.graph (original_vertexes c 0 marks) (original_vertexes c 0 marks) own
      → keys own_tables ≡ original_vertexes c 0 marks
      → IsTables tables own_tables
      → (comp : Component) × (new_component sort_edges sort_strings c own own_tables ≡ ok comp)
        × IsComponent tables l.graph marks c comp
  unfolding new_component
  IsComponent-new c own own_tables good same tabled =
      let (t, run, cycles) =
        find_cycles-IsCycles sort_edges sort_strings own
          (record { visited = λ v. false; rec_stack = λ v. false; cycles = []; cycles_idents = [] })
          is_sort (IsInner-own (original_vertexes c 0 marks) own good) refl refl in
      let comp : Component = record {
        id = c;
        component_graph = own;
        tables = own_tables;
        cycles = t.cycles;
        cycles_idents = t.cycles_idents;
        grouped_cycles = group_cycles sort_edges sort_strings 0 t.cycles [];
      } in
      (
        comp,
        rw (new_component, map-keys own, run) refl,
        record {
          numbered = refl;
          own_graph = good;
          own_tables = same;
          tabled = tabled;
          is_cycles = cycles;
        },
      )

  -- The component with the mark `c`.
  component_ok :
      (c : ℕ)
      → (own : List (ℕ × List Edge)) × (own_tables : List (ℕ × Table)) × (comp : Component)
        × (component_tables tables (original_vertexes c 0 marks) ≡ ok own_tables)
        × (component_graph l.graph (original_vertexes c 0 marks) (original_vertexes c 0 marks)
            ≡ ok own)
        × (new_component sort_edges sort_strings c own own_tables ≡ ok comp)
        × IsComponent tables l.graph marks c comp
        × IsComponentGraph l.graph (original_vertexes c 0 marks) (original_vertexes c 0 marks) own
  component_ok c =
      let vertexes = original_vertexes c 0 marks in
      let in_range = λ (v : ℕ) (h : Elem v vertexes). small v c (in_component c v h) in
      let (own_tables, run, same, tabled) = component_tables_ok tables vertexes in_range in
      let (own, run', good) =
        component_graph_ok l.graph vertexes vertexes
          (λ v h. omega (arith, in_range v h, linked.graph_size)) in
      let (comp, run'', is_comp) = IsComponent-new c own own_tables good same tabled in
      (own, own_tables, comp, run, run', run'', is_comp, good)

  -- The components from `c` on, and the identifiers of the edges that stay within one of them.
  pub record AreComponents (n c : ℕ) (comps : List Component) (ids : List ℕ) : Type 0 where
    pub size : length comps ≡ n
    pub each :
        (k : ℕ)
        → k < n
        → (comp : Component) × (get_elem? comps k ≡ some comp)
          × IsComponent tables l.graph marks (c + k) comp
    pub within :
        (id : ℕ)
        → Elem id ids
        → (d : ℕ) × (v : ℕ) × (e : Edge) × (get_elem? marks v ≡ some (some d))
          × (get_elem? marks e.to.idx ≡ some (some d))
          × Elem e (entries l.graph v)
          × (e.id ≡ id)
    pub collected :
        (k v : ℕ) (e : Edge)
        → k < n
        → get_elem? marks v ≡ some (some (c + k))
        → get_elem? marks e.to.idx ≡ some (some (c + k))
        → Elem e (entries l.graph v)
        → Elem e.id ids

  pub build_components_ok :
      (n c : ℕ)
      → (comps : List Component) × (ids : List ℕ) × (build_components sort_edges sort_strings tables
            l.graph marks n c
          ≡ ok (comps, ids))
        × AreComponents n c comps ids
  unfolding build_components
  build_components_ok zero c = (
    [],
    [],
    refl,
    record {
      size = refl;
      each = λ k lt. absurd (omega arith);
      within = λ id h. absurd h;
      collected = λ k v e lt. absurd (omega arith);
    },
  )
  build_components_ok (suc n) c =
      let (own, own_tables, comp, run, run', run'', is_comp, own_good) = component_ok c in
      let (comps, ids, rest, good) = build_components_ok n (suc c) in
      (
        comp ∷ comps,
        edge_ids own ++ ids,
        rw (run, run', run'', rest) refl,
        record {
          size = ap suc good.size;
          each = λ k lt. each c comp comps is_comp good.each k lt;
          within = λ id h. elim (Elem-append id (edge_ids own) ids h) [
            | inl h' ↦
                let (v, e, m, m', m'', p) = own_good.from_inside id h' in
                (c, v, e, in_component c v m, in_component c e.to.idx m'', m', p)
            | inr h' ↦ good.within id h'
          ];
          collected =
              λ k v e lt at at' m. collected c own ids own_good good.collected k v e lt at at' m;
        },
      )
    where
      each :
          (c : ℕ) (comp : Component) (comps : List Component)
          → IsComponent tables l.graph marks c comp
          → ((k : ℕ)
              → k < n
              → (comp' : Component) × (get_elem? comps k ≡ some comp')
                × IsComponent tables l.graph marks (suc c + k) comp')
          → (k : ℕ) → k < suc n
          → (comp' : Component) × (get_elem? (comp ∷ comps) k ≡ some comp')
            × IsComponent tables l.graph marks (c + k) comp'
      each c comp comps is_comp rest zero lt =
          let q : c ≡ c + 0 = omega arith in
          (comp, refl, subst (λ d. IsComponent tables l.graph marks d comp) q is_comp)
      each c comp comps is_comp rest (suc k) lt =
          let (comp', at, good) = rest k (omega arith) in
          let q : suc c + k ≡ c + suc k = omega arith in
          (comp', at, subst (λ d. IsComponent tables l.graph marks d comp') q good)

      collected :
          (c : ℕ) (own : List (ℕ × List Edge)) (ids : List ℕ)
          → IsComponentGraph l.graph (original_vertexes c 0 marks) (original_vertexes c 0 marks) own
          → ((k v : ℕ) (e : Edge)
              → k < n
              → get_elem? marks v ≡ some (some (suc c + k))
              → get_elem? marks e.to.idx ≡ some (some (suc c + k))
              → Elem e (entries l.graph v)
              → Elem e.id ids)
          → (k v : ℕ) (e : Edge) → k < suc n
          → get_elem? marks v ≡ some (some (c + k))
          → get_elem? marks e.to.idx ≡ some (some (c + k))
          → Elem e (entries l.graph v)
          → Elem e.id (edge_ids own ++ ids)
      collected c own ids good rest zero v e lt at at' m =
          let q : c + 0 ≡ c = omega arith in
          let here = λ (u : ℕ) (p : get_elem? marks u ≡ some (some (c + 0))).
            of_component c u (subst (λ d. get_elem? marks u ≡ some (some d)) q p) in
          Elem-left e.id (edge_ids own) ids
            ((good.collected v e (here v at) m (here e.to.idx at')).1)
      collected c own ids good rest (suc k) v e lt at at' m =
          let q : c + suc k ≡ suc c + k = omega arith in
          Elem-right e.id (edge_ids own) ids (
            rest k v e (omega arith) (subst (λ d. get_elem? marks v ≡ some (some d)) q at)
              (subst (λ d. get_elem? marks e.to.idx ≡ some (some d)) q at') m)
