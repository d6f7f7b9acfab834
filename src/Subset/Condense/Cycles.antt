-- ===== src/Subset/Condense/Cycles.antt =====
-- The components of NewGraph in subset/graph.go that hasCycle of subset/component.go tells apart.
use greenmask.Common.{
  ℕ, suc, ◌+◌, ◌<◌, ◌≡◌, ◌⊎◌, ◌↔◌, inl, inr, refl, sym, subst, ◌∙◌, Option, some, List, [], ◌∷◌,
  ◌++◌, Bool, true, false, Bool-cases, get_elem?, ok, arith,
}
use greenmask.Subset.Reach.{Elem, Walk, stop, go, Walk-trans, Walk-edge}
use greenmask.Subset.Types.{Table, Edge}
use greenmask.Subset.Component.{Component, has_cycle, get_one_table}
use greenmask.Subset.Component.Cycles.{IsWalk, IsCycle, keys}
use greenmask.Subset.Component.HasCycle.{IsCycles-iff}
use greenmask.Subset.Condense.{Graph, target_indices, original_vertexes, is_component}
use greenmask.Subset.Condense.Vertexes.{original_vertexes-mark, mark-original_vertexes}
use greenmask.Subset.Condense.Components.{IsTables, IsComponent}
use greenmask.Subset.Condense.Condensed.{IsNewGraph, get-lt, target-edge, length-target_indices}

-- Each vertex of the list is smaller than those behind it.
abbrev Ascends : List ℕ → Type 0
Ascends [] = Unit
Ascends (v ∷ vs) = ((w : ℕ) → Elem w vs → v < w) × Ascends vs

original_vertexes-Ascends :
    (c i : ℕ) (marks : List (Option ℕ)) → Ascends (original_vertexes c i marks)
unfolding original_vertexes
original_vertexes-Ascends c i [] = tt
original_vertexes-Ascends c i (m ∷ marks) = elim (Bool-cases (is_component c m)) [
  | inl e ↦ rw e (
    (λ w h. let (k, p, at) = original_vertexes-mark c (suc i) marks w h in omega (arith, p)),
    original_vertexes-Ascends c (suc i) marks,
  )
  | inr e ↦ rw e (original_vertexes-Ascends c (suc i) marks)
]

IsWalk-append :
    (graph : List (ℕ × List Edge)) (u v w : ℕ) (xs ys : List Edge)
    → IsWalk graph u xs v
    → IsWalk graph v ys w
    → IsWalk graph u (xs ++ ys) w
IsWalk-append graph u v w [] ys p q = subst (λ k. IsWalk graph k ys w) (sym p) q
IsWalk-append graph u v w (x ∷ xs) ys (edge, p) q = (edge, IsWalk-append graph x.idx v w xs ys p q)

module _ (tables : List Table) (g : Graph) (good : IsNewGraph tables g) where
  some_eq : (x y : Component) → some x ≡ some y → x ≡ y
  some_eq x y e = cc

  pub the_component :
      (c : ℕ) (comp : Component)
      → get_elem? g.scc c ≡ some comp
      → IsComponent tables g.links.graph g.marks c comp
  the_component c comp at =
      let (y, at', is_comp) = good.each c (omega (arith, get-lt g.scc c comp at, good.scc_size)) in
      subst (λ z. IsComponent tables g.links.graph g.marks c z) (some_eq y comp (sym at' ∙ at))
        is_comp

  has_cycle_iff :
      (c : ℕ) (comp : Component)
      → get_elem? g.scc c ≡ some comp
      → (has_cycle comp ≡ true) ↔ ((walk : List Edge) × IsCycle comp.component_graph walk)
  unfolding has_cycle
  has_cycle_iff c comp at =
      IsCycles-iff comp.component_graph comp.cycles (the_component c comp at).is_cycles

  module _ (c : ℕ) (comp : Component)
      (is_comp : IsComponent tables g.links.graph g.marks c comp) where
    vertex : (v : ℕ) → get_elem? g.marks v ≡ some (some c) → Elem v (original_vertexes c 0 g.marks)
    vertex v at =
        let q : 0 + v ≡ v = omega arith in
        subst (λ j. Elem j (original_vertexes c 0 g.marks)) q
          (mark-original_vertexes c 0 g.marks v at)

    -- A walk between two vertices of a component does not leave it.
    inner-IsWalk :
        (w u : ℕ)
        → get_elem? g.marks w ≡ some (some c)
        → get_elem? g.marks u ≡ some (some c)
        → Walk (target_indices g.links.graph) w u
        → Walk (target_indices g.links.graph) u w
        → (walk : List Edge) × IsWalk comp.component_graph u walk w
    inner-IsWalk w u at_w at_u (stop e) back = ([], e)
    inner-IsWalk w u at_w at_u (go {x = x} edge p) back =
        let (e, m, q) = target-edge g.links.graph u x edge in
        let (to, lt) = good.linked.target u e m in
        let size = good.components.size in
        let at_x : get_elem? g.marks x ≡ some (some c) =
          good.components.together x w
            (omega (arith, lt, q, length-target_indices g.links.graph, good.linked.graph_size))
            (omega (arith, get-lt g.marks w (some c) at_w, size))
            (p, Walk-trans back (Walk-edge edge))
          ∙ at_w in
        let (walk, is_walk) = inner-IsWalk w x at_w at_x p (Walk-trans back (Walk-edge edge)) in
        let at_to : get_elem? g.marks e.to.idx ≡ some (some c) =
          subst (λ k. get_elem? g.marks k ≡ some (some c)) (sym q ∙ sym to) at_x in
        (
          e ∷ walk,
          (
            (is_comp.own_graph.collected u e (vertex u at_u) m (vertex e.to.idx at_to)).0,
            subst (λ k. IsWalk comp.component_graph k walk w) (sym q) is_walk,
          ),
        )

    -- Two vertices of a component are on a cycle.
    two-IsCycle :
        (v w : ℕ)
        → v < w
        → get_elem? g.marks v ≡ some (some c)
        → get_elem? g.marks w ≡ some (some c)
        → (walk : List Edge) × IsCycle comp.component_graph walk
    two-IsCycle v w lt at at' =
        let size = good.components.size in
        let (there, back) =
          good.components.apart v w (omega (arith, get-lt g.marks v (some c) at, size))
            (omega (arith, get-lt g.marks w (some c) at', size)) (at ∙ sym at') in
        let (xs, p) = inner-IsWalk w v at' at there back in
        let (ys, q) = inner-IsWalk v w at at' back there in
        (xs ++ ys, cycle xs ys p (IsWalk-append comp.component_graph v w v xs ys p q))
      where
        cycle :
            (xs ys : List Edge)
            → IsWalk comp.component_graph v xs w
            → IsWalk comp.component_graph v (xs ++ ys) v
            → IsCycle comp.component_graph (xs ++ ys)
        cycle [] ys p q = absurd (omega (arith, p))
        cycle (x ∷ xs) ys p q = (v, q)

    mark_of : (v : ℕ) → Elem v (original_vertexes c 0 g.marks) → get_elem? g.marks v ≡ some (some c)
    mark_of v h =
        let (k, p, at) = original_vertexes-mark c 0 g.marks v h in
        let q : k ≡ v = omega (arith, p) in subst (λ j. get_elem? g.marks j ≡ some (some c)) q at

    -- A component has a table, and one with two has a cycle.
    tables-cases :
        c < g.scc_count
        → (own : List (ℕ × Table)) → keys own ≡ original_vertexes c 0 g.marks
        → ((v : ℕ) × (t : Table) × (own ≡ (v, t) ∷ []))
          ⊎ ((walk : List Edge) × IsCycle comp.component_graph walk)
    tables-cases lt [] same =
        let (u, small, at) = good.components.used c lt in
        absurd (subst (λ ks. Elem u ks) (sym same) (vertex u at))
    tables-cases lt ((v, t) ∷ []) same = inl (v, t, refl)
    tables-cases lt ((v, t) ∷ (w, t') ∷ own) same =
        let up : Ascends (v ∷ w ∷ keys own) =
          subst Ascends (sym same) (original_vertexes-Ascends c 0 g.marks) in
        inr (
          two-IsCycle v w (up.0 w (inl refl)) (mark_of v (subst (λ ks. Elem v ks) same (inl refl)))
            (mark_of w (subst (λ ks. Elem w ks) same (inr (inl refl)))))

  -- A component of a graph as NewGraph returns it that hasCycle is false of has exactly one table,
  -- which is that of its vertex, and getOneTable returns it without a panic.
  pub get_one_table-ok :
      (c : ℕ) (comp : Component)
      → get_elem? g.scc c ≡ some comp
      → has_cycle comp ≡ false
      → (v : ℕ) × (t : Table) × (comp.tables ≡ (v, t) ∷ [])
        × (get_elem? tables v ≡ some t)
        × (get_one_table comp ≡ ok t)
  unfolding get_one_table
  get_one_table-ok c comp at no_cycle =
      let is_comp = the_component c comp at in
      elim (tables-cases c comp is_comp (omega (arith, get-lt g.scc c comp at, good.scc_size))
        comp.tables is_comp.own_tables) [
          | inl (v, t, e) ↦ (
            v,
            t,
            e,
            (subst (λ own. IsTables tables own) e is_comp.tabled).0,
            rw (get_one_table, no_cycle, e) refl,
          )
          | inr found ↦ absurd (clash ((has_cycle_iff c comp at).1 found) no_cycle)
        ]
    where
      clash : {b : Bool} → b ≡ true → b ≡ false → ⊥
      clash p q = cc
