-- ===== src/Subset/Sorted/Correct.antt =====
-- What GetSortedTablesAndDependenciesGraph of subset/graph.go returns for the graph of NewGraph.
use greenmask.Common.{
  ℕ, ◌+◌, ◌<◌, ◌≡◌, refl, sym, ap, subst, ◌∙◌, none, some, List, length, get_elem?, reverse, ok,
  arith,
}
use greenmask.Subset.Reach.{Elem, Before}
use greenmask.Subset.Types.{Table, Edge}
use greenmask.Subset.Component.{Component}
use greenmask.Subset.Build.Appends.{entries}
use greenmask.Subset.Condense.{CondensedEdge, Graph, target_indices}
use greenmask.Subset.Condense.Components.{IsComponent}
use greenmask.Subset.Condense.Condensed.{IsNewGraph, get-lt, length-target_indices}
use greenmask.Subset.Sorted.{Dependencies, component_oids, get_sorted_tables_and_dependencies_graph}
use greenmask.Subset.Sorted.Order.{sort_condensed_edges-IsOrder}
use greenmask.Subset.Sorted.Dependencies.{Has, build_dependencies-Built}
use greenmask.Subset.Sorted.Oids.{
  IsRange, Elem-reverse, Before-reverse, oid_of_vertex, vertex_of_oid, collect_tables_ok,
}

-- The tables in an order in which a table comes behind those that it refers to, unless it is in a
-- component with them; and the map has these for each table.
pub record IsTopological (tables : List Table) (g : Graph) (sorted : List ℕ)
    (dependencies : Dependencies) : Type 0 where
  pub all : (v : ℕ) (t : Table) → get_elem? tables v ≡ some t → Elem t.oid sorted
  pub before :
      (e : Edge) (a b : Table)
      → Elem e g.links.edges
      → get_elem? tables e.from.idx ≡ some a
      → get_elem? tables e.to.idx ≡ some b
      → (get_elem? g.marks e.from.idx ≡ get_elem? g.marks e.to.idx → ⊥)
      → Before b.oid a.oid sorted
  pub depends :
      (e : Edge) (a b : Table)
      → Elem e g.links.edges
      → get_elem? tables e.from.idx ≡ some a
      → get_elem? tables e.to.idx ≡ some b
      → (get_elem? g.marks e.from.idx ≡ get_elem? g.marks e.to.idx → ⊥)
      → Has dependencies a.oid b.oid

module _ (range : List (ℕ × Table) → List (ℕ × Table)) (is_range : IsRange range)
    (tables : List Table) (g : Graph) (good : IsNewGraph tables g) where
  -- Two tables have different identifiers.
  module _
      (unique : (v w : ℕ) (a b : Table)
        → get_elem? tables v ≡ some a
        → get_elem? tables w ≡ some b
        → a.oid ≡ b.oid
        → v ≡ w) where
    apart :
        (c d : ℕ) (a b : Component) (o : ℕ)
        → get_elem? g.scc c ≡ some a
        → get_elem? g.scc d ≡ some b
        → Elem o (component_oids range a)
        → Elem o (component_oids range b)
        → c ≡ d
    apart c d a b o at at' h h' =
        let lt : c < g.scc_count = omega (arith, get-lt g.scc c a at, good.scc_size) in
        let lt' : d < g.scc_count = omega (arith, get-lt g.scc d b at', good.scc_size) in
        let (x, at1, is_a) = good.each c lt in
        let (y, at2, is_b) = good.each d lt' in
        let (v, t, tab, p, mark) =
          vertex_of_oid range is_range tables g good c a o
            (subst (λ z. IsComponent tables g.links.graph g.marks c z) (same x a (sym at1 ∙ at))
              is_a)
            h in
        let (w, t', tab', p', mark') =
          vertex_of_oid range is_range tables g good d b o
            (subst (λ z. IsComponent tables g.links.graph g.marks d z) (same y b (sym at2 ∙ at'))
              is_b)
            h' in
        let q : v ≡ w = unique v w t t' tab tab' (p ∙ sym p') in
        marks_same c d (sym mark ∙ ap (λ k. get_elem? g.marks k) q ∙ mark')
      where
        same : (x y : Component) → some x ≡ some y → x ≡ y
        same x y e = cc

        marks_same : (c d : ℕ) → some (some c) ≡ some (some d) → c ≡ d
        marks_same c d e = cc

    -- The reversed condensed graph has an edge for an edge between two components.
    crossing :
        (e : Edge) (a b : Table)
        → Elem e g.links.edges
        → get_elem? tables e.from.idx ≡ some a
        → get_elem? tables e.to.idx ≡ some b
        → (get_elem? g.marks e.from.idx ≡ get_elem? g.marks e.to.idx → ⊥)
        → (d : ℕ) × (x : CondensedEdge) × Elem x (entries g.condensed.reversed d)
          × (get_elem? g.scc d ≡ some x.from.component)
          × (get_elem? g.scc x.to.idx ≡ some x.to.component)
          × Elem a.oid (component_oids range x.to.component)
          × Elem b.oid (component_oids range x.from.component)
    crossing e a b h at at' ne =
        let (c, mark, lt) = good.components.numbered e.from.idx (in_graph e.from.idx a at) in
        let (d, mark', lt') = good.components.numbered e.to.idx (in_graph e.to.idx b at') in
        let (forth, (x, m, orig, to)) =
          good.condensed.crosses e c d h mark mark'
            (λ p. ne (mark ∙ ap (λ k. some (some k)) p ∙ sym mark')) in
        let (own, own') = good.condensed.owned d x m in
        let (listed, from, rest, rest', apart) = good.condensed.returns d x m in
        let scc_d : get_elem? g.scc d ≡ some x.from.component =
          subst (λ k. get_elem? g.scc k ≡ some x.from.component) from own in
        let scc_c : get_elem? g.scc c ≡ some x.to.component =
          subst (λ k. get_elem? g.scc k ≡ some x.to.component) to own' in
        (
          d,
          x,
          m,
          scc_d,
          own',
          oid_of_vertex range is_range tables g good c e.from.idx x.to.component a
              (the_component c x.to.component lt scc_c) mark at,
          oid_of_vertex range is_range tables g good d e.to.idx x.from.component b
              (the_component d x.from.component lt' scc_d) mark' at',
        )
      where
        in_graph :
            (v : ℕ) (t : Table)
            → get_elem? tables v ≡ some t
            → v < length (target_indices g.links.graph)
        in_graph v t at = omega (
          arith,
          get-lt tables v t at,
          length-target_indices g.links.graph,
          good.linked.graph_size,
        )

        some_eq : (x y : Component) → some x ≡ some y → x ≡ y
        some_eq x y e = cc

        the_component :
            (c : ℕ) (comp : Component)
            → c < g.scc_count
            → get_elem? g.scc c ≡ some comp
            → IsComponent tables g.links.graph g.marks c comp
        the_component c comp lt at =
            let (y, at', is_comp) = good.each c lt in
            subst (λ z. IsComponent tables g.links.graph g.marks c z)
              (some_eq y comp (sym at' ∙ at)) is_comp

    -- For a graph as NewGraph returns it, tables with identifiers of their own and a range that
    -- goes over each entry of a map, GetSortedTablesAndDependenciesGraph returns without a panic.
    -- All tables are in the order; a table stands behind each that it refers to from another
    -- component; and the map holds that one among the dependencies of the table.
    pub get_sorted_tables-IsTopological :
        (sorted : List ℕ) × (dependencies : Dependencies)
        × (get_sorted_tables_and_dependencies_graph range g ≡ ok (sorted, dependencies))
        × IsTopological tables g sorted dependencies
    unfolding get_sorted_tables_and_dependencies_graph
    get_sorted_tables-IsTopological =
        let size = good.condensed.reversed_size in
        let (order, run, ordered) =
          sort_condensed_edges-IsOrder g.condensed.reversed
            (λ d x h. let (lt, lt') = good.downwards d x h in (lt, omega (arith, lt', size))) in
        let (ts, run', all, before) =
          collect_tables_ok range is_range tables g good order
            (λ c h. omega (arith, ordered.within c h, size)) in
        let (deps, run'', built) =
          build_dependencies-Built range g.scc g.condensed.reversed
            (omega (arith, size, good.scc_size)) (λ d x h. (good.downwards d x h).0)
            (λ d x h. (good.condensed.owned d x h).1) apart 0 g.condensed.reversed (λ oid. none)
            (omega arith)
            (λ k.
              let q : k ≡ 0 + k = omega arith in
              subst (λ j. entries g.condensed.reversed j ≡ entries g.condensed.reversed k) q refl)
            (λ d x src dst lt. absurd (omega arith)) in
        (
          reverse ts,
          deps,
          rw (get_sorted_tables_and_dependencies_graph, run, run', run'') refl,
          record {
            all = λ v t at.
                let (c, mark, lt) = good.components.numbered v (
                  omega (
                    arith,
                    get-lt tables v t at,
                    length-target_indices g.links.graph,
                    good.linked.graph_size,
                  )) in
                let (comp, at', is_comp) = good.each c lt in
                Elem-reverse t.oid ts (
                  all c comp t.oid (ordered.all c (omega (arith, lt, size))) at'
                    (oid_of_vertex range is_range tables g good c v comp t is_comp mark at));
            before = λ e a b h at at' ne.
                let (d, x, m, own, own', in_a, in_b) = crossing e a b h at at' ne in
                Before-reverse a.oid b.oid ts (
                  before x.to.idx d x.to.component x.from.component a.oid b.oid
                    (ordered.first d x m) own' own in_a in_b);
            depends = λ e a b h at at' ne.
                let (d, x, m, own, own', in_a, in_b) = crossing e a b h at at' ne in
                built d x a.oid b.oid (omega (arith, (good.downwards d x m).1, size)) m in_a in_b;
          },
        )
