-- ===== src/Subset/Condense/Condensed.antt =====
-- NewGraph of subset/graph.go as a whole: its components and its condensed graph.
use greenmask.Common.{
  ℕ, zero, suc, ◌+◌, ◌<◌, ◌≤◌, ◌≡◌, ◌⊎◌, inl, inr, refl, sym, ap, subst, ◌∙◌, Option, some, List,
  [], ◌∷◌, map, length, get_elem?, Result, Error, ok, err, wrap, Bytes, arith,
}
use greenmask.Subset.Reach.{Elem, targets, Walk-edge}
use greenmask.Subset.Types.{Table, Reference, VirtualReference, Edge}
use greenmask.Subset.Dfs.PostOrder.{IsGraph}
use greenmask.Subset.Dfs.Flood.{IsReversed}
use greenmask.Subset.Scc.Correct.{IsComponents, find_scc-IsComponents}
use greenmask.Subset.Component.{Component}
use greenmask.Subset.Component.Search.{IsSort}
use greenmask.Subset.Build.{Links, make_lists}
use greenmask.Subset.Build.Appends.{entries, length-make_lists, entries-make_lists}
use greenmask.Subset.Build.Edges.{IsLinked}
use greenmask.Subset.Build.Outcome.{Answers, build_links-Outcome}
use greenmask.Subset.Build.Arrows.{IsReferenced}
use greenmask.Subset.Build.Referenced.{build_links-IsReferenced}
use greenmask.Subset.Condense.{
  CondensedEdge, CondensedGraph, Graph, zeros, target_indices, condense_edges, build_components,
  build_condensed_graph, new_graph,
}
use greenmask.Subset.Condense.OwnGraph.{Elem-map, map-Elem}
use greenmask.Subset.Condense.Components.{IsComponent, build_components_ok}
use greenmask.Subset.Condense.Crossing.{IsCondensed, condense_edges_ok}

pub length-target_indices :
    (graph : List (List Edge)) → length (target_indices graph) ≡ length graph
unfolding target_indices
length-target_indices [] = refl
length-target_indices (es ∷ graph) = ap suc (length-target_indices graph)

targets-target_indices :
    (graph : List (List Edge)) (u : ℕ)
    → targets (target_indices graph) u ≡ map (λ e. e.idx) (entries graph u)
unfolding target_indices
targets-target_indices [] u = refl
targets-target_indices (es ∷ graph) zero = refl
targets-target_indices (es ∷ graph) (suc u) = targets-target_indices graph u

pub edge-target :
    (graph : List (List Edge)) (u : ℕ) (e : Edge)
    → Elem e (entries graph u)
    → Elem e.idx (targets (target_indices graph) u)
edge-target graph u e h =
    subst (λ ws. Elem e.idx ws) (sym (targets-target_indices graph u))
      (Elem-map (λ x. x.idx) e (entries graph u) h)

pub target-edge :
    (graph : List (List Edge)) (u w : ℕ)
    → Elem w (targets (target_indices graph) u)
    → (e : Edge) × Elem e (entries graph u) × (e.idx ≡ w)
target-edge graph u w h =
    map-Elem (λ x. x.idx) w (entries graph u)
      (subst (λ ws. Elem w ws) (targets-target_indices graph u) h)

length-zeros : (n : ℕ) → length (zeros n) ≡ n
unfolding zeros
length-zeros zero = refl
length-zeros (suc n) = ap suc (length-zeros n)

pub get-lt {ℓ} :
    {A : Type ℓ} (marks : List A) (v : ℕ) (m : A) → get_elem? marks v ≡ some m → v < length marks
get-lt [] v m h = cc
get-lt (x ∷ xs) zero m h = omega arith
get-lt (x ∷ xs) (suc v) m h = omega (arith, get-lt xs v m h)

some_inj : (a b : ℕ) → some (some a) ≡ some (some b) → a ≡ b
some_inj a b e = cc

module _ (tables : List Table) where
  module _ (l : Links) (linked : IsLinked (length tables) l) where
    graph_length : length (target_indices l.graph) ≡ length tables
    graph_length = length-target_indices l.graph ∙ linked.graph_size

    IsGraph-linked : IsGraph (target_indices l.graph)
    IsGraph-linked u w h =
        let (e, m, p) = target-edge l.graph u w h in
        omega (arith, (linked.target u e m).1, p, graph_length)

    -- The reversed graph that findScc searches is that of the graph.
    IsReversed-linked : IsReversed (target_indices l.graph) l.reversed_simple_graph
    IsReversed-linked = record {
      same_length = linked.simple_size ∙ sym graph_length;
      back = λ u w h.
          let (e, m, p) = target-edge l.graph u w h in
          subst (λ k. Elem u (entries l.reversed_simple_graph k)) p (linked.back u e m);
      forth = λ u w h.
          let (e, m, p) = linked.forth w u h in
          subst (λ k. Elem k (targets (target_indices l.graph) u)) p (edge-target l.graph u e m);
    }

  -- The graph that NewGraph returns.
  pub record IsNewGraph (g : Graph) : Type 0 where
    pub same_tables : g.tables ≡ tables
    pub linked : IsLinked (length tables) g.links
    pub components : IsComponents (target_indices g.links.graph) g.scc_count g.marks
    pub scc_size : length g.scc ≡ g.scc_count
    pub each :
        (c : ℕ)
        → c < g.scc_count
        → (comp : Component) × (get_elem? g.scc c ≡ some comp)
          × IsComponent tables g.links.graph g.marks c comp
    pub condensed : IsCondensed g.marks g.scc g.scc_count g.links.edges g.condensed
    -- The edges of the condensed graph lead to greater numbers, those of the reversed one to smaller.
    pub upwards :
        (c : ℕ) (x : CondensedEdge)
        → Elem x (entries g.condensed.graph c)
        → (c < x.to.idx) × (x.to.idx < g.scc_count)
    pub downwards :
        (d : ℕ) (x : CondensedEdge)
        → Elem x (entries g.condensed.reversed d)
        → (x.to.idx < d) × (d < g.scc_count)

  module _ (sort_edges : List Edge → List Edge) (sort_strings : List Bytes → List Bytes)
      (is_sort : IsSort sort_edges) where
    module _ (l : Links) (linked : IsLinked (length tables) l) (n : ℕ) (marks : List (Option ℕ))
        (comps : IsComponents (target_indices l.graph) n marks) where
      -- An edge between two components leads to the greater number.
      rising :
          (e : Edge) (c d : ℕ)
          → Elem e l.edges
          → get_elem? marks e.from.idx ≡ some (some c)
          → get_elem? marks e.to.idx ≡ some (some d)
          → (c ≡ d → ⊥)
          → c < d
      rising e c d h at at' ne =
          let place = linked.placed e h in
          let (to_idx, lt) = linked.target e.from.idx e place in
          let edge : Elem e.to.idx (targets (target_indices l.graph) e.from.idx) =
            subst (λ k. Elem k (targets (target_indices l.graph) e.from.idx)) (sym to_idx)
              (edge-target l.graph e.from.idx e place) in
          strict (comps.ordered e.from.idx e.to.idx c d at at' (Walk-edge edge)) ne
        where
          strict : {a b : ℕ} → a ≤ b → (a ≡ b → ⊥) → a < b
          strict le ne = omega (arith, le, ne)

      in_range : (v c : ℕ) → get_elem? marks v ≡ some (some c) → v < length tables
      in_range v c at = omega (arith, get-lt marks v (some c) at, comps.size, graph_length l linked)

      below : (v c : ℕ) → get_elem? marks v ≡ some (some c) → c < n
      below v c at =
          let (d, at', lt) =
            comps.numbered v (omega (arith, in_range v c at, graph_length l linked)) in
          let same : c ≡ d = some_inj c d (sym at ∙ at') in omega (arith, same, lt)

      abbrev no_edges : CondensedGraph
      no_edges = record { graph = make_lists n; reversed = make_lists n; sequence = 0 }

      IsCondensed-start : (scc : List Component) → IsCondensed marks scc n [] no_edges
      IsCondensed-start scc = record {
        graph_size = length-make_lists CondensedEdge n;
        reversed_size = length-make_lists CondensedEdge n;
        leads = λ c x h. absurd (none_in c x h);
        returns = λ c x h. absurd (none_in c x h);
        owned = λ c x h. absurd (none_in c x h);
        crosses = λ e c d h. absurd h;
      }
        where
          none_in :
              (c : ℕ) (x : CondensedEdge)
              → Elem x (entries (make_lists {A = CondensedEdge} n) c)
              → ⊥
          none_in c x h = subst (λ xs. Elem x xs) (entries-make_lists CondensedEdge n c) h

      -- The last two loops of buildCondensedGraph.
      condensed_ok :
          (scc : List Component) × (ids : List ℕ) × (g : CondensedGraph) × (build_components
              sort_edges sort_strings tables l.graph marks n 0
            ≡ ok (scc, ids))
          × (condense_edges marks scc ids l.edges no_edges ≡ ok g)
          × IsNewGraph (record {
            tables = tables;
            links = l;
            marks = marks;
            scc_count = n;
            scc = scc;
            condensed = g;
          })
      condensed_ok =
          let (scc, ids, run, built) =
            build_components_ok sort_edges sort_strings is_sort tables l linked marks in_range n
              0 in
          let (g, run', good) =
            condense_edges_ok sort_edges sort_strings is_sort tables l linked marks in_range n
              (λ v lt. comps.numbered v (omega (arith, lt, graph_length l linked))) scc ids built []
              l.edges no_edges (λ e h. h) (IsCondensed-start scc) in
          (
            scc,
            ids,
            g,
            run,
            run',
            record {
              same_tables = refl;
              linked = linked;
              components = comps;
              scc_size = built.size;
              each = λ c lt.
                  let (comp, at, is_comp) = built.each c lt in
                  let q : 0 + c ≡ c = omega arith in
                  (comp, at, subst (λ d. IsComponent tables l.graph marks d comp) q is_comp);
              condensed = good;
              upwards = λ c x h.
                  let (m, a, at, at', ne) = good.leads c x h in
                  (
                    rising x.original_edge c x.to.idx m at at' ne,
                    below x.original_edge.to.idx x.to.idx at',
                  );
              downwards = λ d x h.
                  let (m, a, at', at, ne) = good.returns d x h in
                  (
                    rising x.original_edge x.to.idx d m at at' (λ p. ne (sym p)),
                    below x.original_edge.to.idx d at',
                  );
            },
          )

    build_condensed_graph_ok :
        (l : Links)
        → IsLinked (length tables) l
        → (g : Graph) × (build_condensed_graph sort_edges sort_strings tables l ≡ ok g)
          × IsNewGraph g
          × (g.links ≡ l)
    unfolding build_condensed_graph
    build_condensed_graph_ok l linked =
        let (n, t, run, comps) =
          find_scc-IsComponents (target_indices l.graph) l.reversed_simple_graph
            (IsGraph-linked l linked) (IsReversed-linked l linked)
            (record { visited = zeros (length tables); order = [] })
            (length-zeros (length tables) ∙ sym (graph_length l linked)) in
        let (scc, ids, g, run', run'', good) = condensed_ok l linked n t.visited comps in
        (
          record {
            tables = tables;
            links = l;
            marks = t.visited;
            scc_count = n;
            scc = scc;
            condensed = g;
          },
          rw (build_condensed_graph, run, run', run'') refl,
          good,
          refl,
        )

    -- If each query for references returns rows or an error, and the sort of edges keeps the
    -- elements, NewGraph ends without a panic: with the wrapped error of a query, or with a graph
    -- whose edges are those of the references of the database and of the configuration to the first
    -- table of their schema and name, in their order, and no others; whose edges stand at their
    -- sources with identifiers of their own; whose vertices are numbered by strongly connected
    -- components, each held with its vertices, its inner edges and some of its closed walks, at
    -- least one if there is any; and whose condensed graph has an edge, and the reversed one the
    -- reversed edge, for exactly the edges between two components, leading to greater numbers.
    pub new_graph-IsNewGraph :
        (get_references : ℕ → Result (List Reference)) (vr : List VirtualReference)
        → Answers get_references vr tables
        → ((g : Graph) × (new_graph sort_edges sort_strings get_references vr tables ≡ ok g)
            × IsNewGraph g
            × IsReferenced get_references vr tables g.links)
          ⊎ ((oid : ℕ) × (e : Error) × (get_references oid ≡ err e)
              × (new_graph sort_edges sort_strings get_references vr tables
                  ≡ err (wrap "error getting references" e)))
    unfolding new_graph
    new_graph-IsNewGraph get_references vr answers =
        elim (build_links-Outcome get_references vr tables answers) [
          | inl (l, run, linked) ↦
              let (g, run', good, same) = build_condensed_graph_ok l linked in
              inl (
                g,
                rw (new_graph, run) run',
                good,
                subst (IsReferenced get_references vr tables) (sym same)
                    (build_links-IsReferenced get_references vr tables answers l run),
              )
          | inr (oid, e, failed, run) ↦ inr (oid, e, failed, rw (new_graph, run) refl)
        ]
