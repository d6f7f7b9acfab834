-- ===== src/Subset/Sorted/Order.antt =====
-- sortCondensedEdges of subset/condenced_edge.go on the reversed condensed graph: a component comes
-- before those that it has edges from.
use greenmask.Common.{
  ℕ, zero, suc, ◌<◌, ◌≤◌, ◌≡◌, ◌⊎◌, inl, inr, refl, sym, ap, subst, ◌∙◌, none, List, [], ◌∷◌, map,
  length, ok, arith,
}
use greenmask.Subset.Reach.{Elem, Before, IsDistinct, targets, Walk, stop, go, Walk-edge}
use greenmask.Subset.Dfs.Marks.{seen_lt}
use greenmask.Subset.Dfs.PostOrder.{IsGraph}
use greenmask.Subset.Scc.{erase_visited, sort_vertices}
use greenmask.Subset.Scc.Order.{sort_vertices_ok}
use greenmask.Subset.Build.Appends.{entries}
use greenmask.Subset.Condense.{CondensedEdge, condensed_indices, none_visited, sort_condensed_edges}
use greenmask.Subset.Condense.OwnGraph.{Elem-map, map-Elem}

length-condensed_indices :
    (graph : List (List CondensedEdge)) → length (condensed_indices graph) ≡ length graph
unfolding condensed_indices
length-condensed_indices [] = refl
length-condensed_indices (es ∷ graph) = ap suc (length-condensed_indices graph)

targets-condensed_indices :
    (graph : List (List CondensedEdge)) (u : ℕ)
    → targets (condensed_indices graph) u ≡ map (λ e. e.to.idx) (entries graph u)
unfolding condensed_indices
targets-condensed_indices [] u = refl
targets-condensed_indices (es ∷ graph) zero = refl
targets-condensed_indices (es ∷ graph) (suc u) = targets-condensed_indices graph u

length-none_visited : (n : ℕ) → length (none_visited n) ≡ n
unfolding none_visited
length-none_visited zero = refl
length-none_visited (suc n) = ap suc (length-none_visited n)

erase_visited-none_visited : (n : ℕ) → erase_visited (none_visited n) ≡ none_visited n
unfolding none_visited erase_visited
erase_visited-none_visited zero = refl
erase_visited-none_visited (suc n) = ap (λ ms. none ∷ ms) (erase_visited-none_visited n)

-- An order of the components in which one that has an edge comes first.
pub record IsOrder (graph : List (List CondensedEdge)) (order : List ℕ) : Type 0 where
  pub all : (c : ℕ) → c < length graph → Elem c order
  pub within : (c : ℕ) → Elem c order → c < length graph
  pub distinct : IsDistinct order
  pub first : (d : ℕ) (x : CondensedEdge) → Elem x (entries graph d) → Before x.to.idx d order

module _ (graph : List (List CondensedEdge))
    (down : (d : ℕ) (x : CondensedEdge)
      → Elem x (entries graph d)
      → (x.to.idx < d) × (d < length graph)) where
  edge_of : (u w : ℕ) → Elem w (targets (condensed_indices graph) u) → (w < u) × (u < length graph)
  edge_of u w h =
      let (x, m, p) =
        map-Elem (λ e. e.to.idx) w (entries graph u)
          (subst (λ ws. Elem w ws) (targets-condensed_indices graph u) h) in
      subst (λ k. (k < u) × (u < length graph)) p (down u x m)

  Walk-down : (w u : ℕ) → Walk (condensed_indices graph) w u → w ≤ u
  Walk-down w u (stop e) = omega (arith, e)
  Walk-down w u (go {x = x} h p) = omega (arith, (edge_of u x h).0, Walk-down w x p)

  IsGraph-down : IsGraph (condensed_indices graph)
  IsGraph-down u w h =
      let (lt, lt') = edge_of u w h in omega (arith, lt, lt', length-condensed_indices graph)

  pub sort_condensed_edges-IsOrder :
      (order : List ℕ) × (sort_condensed_edges graph ≡ ok order) × IsOrder graph order
  unfolding sort_condensed_edges
  sort_condensed_edges-IsOrder =
      let size = length-condensed_indices graph in
      let (t, run, good, all) =
        sort_vertices_ok (condensed_indices graph) IsGraph-down
          (record { visited = none_visited (length graph); order = [] })
          (length-none_visited (length graph) ∙ sym size) in
      let run' : sort_vertices (condensed_indices graph)
            (record { visited = none_visited (length graph); order = [] })
          ≡ ok (tt, t) =
        subst
          (λ ms.
            sort_vertices (condensed_indices graph) (record { visited = ms; order = [] })
            ≡ ok (tt, t))
          (erase_visited-none_visited (length graph)) run in
      (
        t.order,
        rw (sort_condensed_edges, run') refl,
        record {
          all = λ c lt. all c (omega (arith, lt, size));
          within = λ c h. omega (arith, seen_lt t.visited c (good.pushed c h), good.size, size);
          distinct = good.distinct;
          first = λ d x h.
              let edge : Elem x.to.idx (targets (condensed_indices graph) d) =
                subst (λ ws. Elem x.to.idx ws) (sym (targets-condensed_indices graph d))
                  (Elem-map (λ e. e.to.idx) x (entries graph d) h) in
              let (lt, d_lt) = down d x h in
              elim (good.led d x.to.idx (all d (omega (arith, d_lt, size))) (Walk-edge edge)) [
                | inl (y, m, here, at) ↦
                    let le : y ≤ d = Walk-down y d m.0 in
                    let ge : d ≤ y = Walk-down d y m.1 in
                    let same : y ≡ d = omega (arith, le, ge) in
                    before t.order x.to.idx d y same lt at
                | inr (y, m, here) ↦ absurd here
              ];
        },
      )
    where
      before :
          (order : List ℕ) (c d y : ℕ)
          → y ≡ d
          → c < d
          → (c ≡ y) ⊎ Before c y order
          → Before c d order
      before order c d y same lt (inl p) = absurd (omega (arith, same, p))
      before order c d y same lt (inr b) = subst (λ k. Before c k order) same b
