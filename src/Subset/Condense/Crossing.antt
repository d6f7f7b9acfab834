-- ===== src/Subset/Condense/Crossing.antt =====
-- The loop over all edges in buildCondensedGraph of subset/graph.go: the edges between two components
-- become edges of the condensed graph.
use greenmask.Common.{
  ℕ, suc, ◌+◌, ◌<◌, ◌≡◌, inl, inr, refl, sym, ap, subst, ◌∙◌, Option, some, List, [], ◌∷◌, ◌++◌,
  append_assoc, append-nil, Bool, true, false, Bool-cases, length, get_elem?, ok, Bytes, arith,
}
use greenmask.Subset.Reach.{Elem, Elem-left, Elem-right, Elem-snoc}
use greenmask.Subset.Types.{Table, Edge}
use greenmask.Subset.Component.{Component}
use greenmask.Subset.Component.Search.{IsSort}
use greenmask.Subset.Build.{Links}
use greenmask.Subset.Build.Appends.{entries, Appended, append_at-Appended}
use greenmask.Subset.Build.Edges.{IsLinked}
use greenmask.Subset.Condense.{
  ComponentLink, CondensedEdge, CondensedGraph, contains, link_of, condense_edge, condense_edges,
}
use greenmask.Subset.Condense.Vertexes.{contains-Elem, Elem-contains}
use greenmask.Subset.Condense.Components.{AreComponents}

-- `past` are the edges that the loop has passed.
pub record IsCondensed (marks : List (Option ℕ)) (comps : List Component) (count : ℕ)
    (past : List Edge) (g : CondensedGraph) : Type 0 where
  pub graph_size : length g.graph ≡ count
  pub reversed_size : length g.reversed ≡ count
  -- An edge of the condensed graph is that of an edge between two components.
  pub leads :
      (c : ℕ) (x : CondensedEdge)
      → Elem x (entries g.graph c)
      → Elem x.original_edge past
        × (x.from.idx ≡ c)
        × (get_elem? marks x.original_edge.from.idx ≡ some (some c))
        × (get_elem? marks x.original_edge.to.idx ≡ some (some x.to.idx))
        × (c ≡ x.to.idx → ⊥)
  -- In the reversed graph it stands at the component that it leads to.
  pub returns :
      (d : ℕ) (x : CondensedEdge)
      → Elem x (entries g.reversed d)
      → Elem x.original_edge past
        × (x.from.idx ≡ d)
        × (get_elem? marks x.original_edge.to.idx ≡ some (some d))
        × (get_elem? marks x.original_edge.from.idx ≡ some (some x.to.idx))
        × (d ≡ x.to.idx → ⊥)
  -- Its ends hold the components of their numbers.
  pub owned :
      (d : ℕ) (x : CondensedEdge)
      → Elem x (entries g.reversed d)
      → (get_elem? comps x.from.idx ≡ some x.from.component)
        × (get_elem? comps x.to.idx ≡ some x.to.component)
  -- Each edge between two components has one in both.
  pub crosses :
      (e : Edge) (c d : ℕ)
      → Elem e past
      → get_elem? marks e.from.idx ≡ some (some c)
      → get_elem? marks e.to.idx ≡ some (some d)
      → (c ≡ d → ⊥)
      → ((x : CondensedEdge) × Elem x (entries g.graph c) × (x.original_edge ≡ e) × (x.to.idx ≡ d))
        × ((x : CondensedEdge) × Elem x (entries g.reversed d)
            × (x.original_edge ≡ e)
            × (x.to.idx ≡ c))

some_inj : (a b : ℕ) → some (some a) ≡ some (some b) → a ≡ b
some_inj a b e = cc

module _ (sort_edges : List Edge → List Edge) (sort_strings : List Bytes → List Bytes)
    (is_sort : IsSort sort_edges) (tables : List Table) (l : Links)
    (linked : IsLinked (length tables) l) (marks : List (Option ℕ))
    (small : (v c : ℕ) → get_elem? marks v ≡ some (some c) → v < length tables) (count : ℕ)
    (numbered : (v : ℕ)
      → v < length tables
      → (c : ℕ) × (get_elem? marks v ≡ some (some c)) × (c < count))
    (comps : List Component) (ids : List ℕ)
    (built : AreComponents sort_edges sort_strings is_sort tables l linked marks small count 0 comps
      ids) where
  link_of_ok :
      (v : ℕ)
      → v < length tables
      → (link : ComponentLink) × (link_of marks comps v ≡ ok link)
        × (get_elem? marks v ≡ some (some link.idx))
        × (link.idx < count)
        × (get_elem? comps link.idx ≡ some link.component)
  unfolding link_of
  link_of_ok v lt =
      let (c, at, c_lt) = numbered v lt in
      let (comp, at', is_comp) = built.each c c_lt in
      (record { idx = c; component = comp }, rw (link_of, at, at') refl, at, c_lt, at')

  -- An identifier that is collected is that of an edge within a component.
  collected-same :
      (e : Edge)
      → Elem e l.edges
      → Elem e.id ids
      → (d : ℕ) × (get_elem? marks e.from.idx ≡ some (some d))
        × (get_elem? marks e.to.idx ≡ some (some d))
  collected-same e h m =
      let (d, v, f, at, at', place, p) = built.within e.id m in
      let same : f ≡ e = linked.unique f e (linked.listed v f place) h p in
      let from : f.from.idx ≡ v = linked.source v f place in
      (
        d,
        subst (λ x. get_elem? marks x.from.idx ≡ some (some d)) same
            (subst (λ k. get_elem? marks k ≡ some (some d)) (sym from) at),
        subst (λ x. get_elem? marks x.to.idx ≡ some (some d)) same at',
      )

  same-collected :
      (e : Edge) (d : ℕ)
      → Elem e l.edges
      → d < count
      → get_elem? marks e.from.idx ≡ some (some d)
      → get_elem? marks e.to.idx ≡ some (some d)
      → Elem e.id ids
  same-collected e d h lt at at' =
      let q : d ≡ 0 + d = omega arith in
      built.collected d e.from.idx e lt
        (subst (λ k. get_elem? marks e.from.idx ≡ some (some k)) q at)
        (subst (λ k. get_elem? marks e.to.idx ≡ some (some k)) q at') (linked.placed e h)

  IsCondensed-pass :
      (past : List Edge) (e : Edge) (d : ℕ) (g : CondensedGraph)
      → get_elem? marks e.from.idx ≡ some (some d)
      → get_elem? marks e.to.idx ≡ some (some d)
      → IsCondensed marks comps count past g
      → IsCondensed marks comps count (past ++ e ∷ []) g
  IsCondensed-pass past e d g at at' good = record {
    graph_size = good.graph_size;
    reversed_size = good.reversed_size;
    leads = λ c x h.
        let (m, a, b, i, j) = good.leads c x h in
        (Elem-left x.original_edge past (e ∷ []) m, a, b, i, j);
    returns = λ c x h.
        let (m, a, b, i, j) = good.returns c x h in
        (Elem-left x.original_edge past (e ∷ []) m, a, b, i, j);
    owned = good.owned;
    crosses = λ f c b h p q ne. elim (Elem-snoc f e past h) [
      | inl m ↦ good.crosses f c b m p q ne
      | inr same ↦ absurd (
          ne (
            some_inj c d (sym p ∙ ap (λ x. get_elem? marks x.from.idx) same ∙ at)
            ∙ some_inj d b (sym at' ∙ ap (λ x. get_elem? marks x.to.idx) (sym same) ∙ q)))
    ];
  }

  module _ (past : List Edge) (e : Edge) (g : CondensedGraph)
      (good : IsCondensed marks comps count past g) (from to : ComponentLink)
      (at : get_elem? marks e.from.idx ≡ some (some from.idx))
      (at' : get_elem? marks e.to.idx ≡ some (some to.idx)) (ne : from.idx ≡ to.idx → ⊥)
      (own : get_elem? comps from.idx ≡ some from.component)
      (own' : get_elem? comps to.idx ≡ some to.component) where
    abbrev there : CondensedEdge
    there = record { id = g.sequence; from = from; to = to; original_edge = e }

    abbrev back : CondensedEdge
    back = record { id = g.sequence; from = to; to = from; original_edge = e }

    IsCondensed-crossed :
        (graph reversed : List (List CondensedEdge))
        → Appended g.graph from.idx there graph
        → Appended g.reversed to.idx back reversed
        → IsCondensed marks comps count
            (past ++ e ∷ [])
            (record { graph = graph; reversed = reversed; sequence = suc g.sequence })
    IsCondensed-crossed graph reversed app app' = record {
      graph_size = app.same_length ∙ good.graph_size;
      reversed_size = app'.same_length ∙ good.reversed_size;
      leads = λ c x h. elim (app.fresh c x h) [
        | inl m ↦
            let (m', a, b, i, j) = good.leads c x m in
            (Elem-left x.original_edge past (e ∷ []) m', a, b, i, j)
        | inr (p, q) ↦ rw (p, q) (Elem-right e past (e ∷ []) (inl refl), refl, at, at', ne)
      ];
      returns = λ d x h. elim (app'.fresh d x h) [
        | inl m ↦
            let (m', a, b, i, j) = good.returns d x m in
            (Elem-left x.original_edge past (e ∷ []) m', a, b, i, j)
        | inr (p, q) ↦
            rw (p, q) (Elem-right e past (e ∷ []) (inl refl), refl, at', at, (λ r. ne (sym r)))
      ];
      owned = λ d x h. elim (app'.fresh d x h) [
        | inl m ↦ good.owned d x m
        | inr (p, q) ↦ rw q (own', own)
      ];
      crosses = λ f c d h p q apart. elim (Elem-snoc f e past h) [
        | inl m ↦
            let ((x, m', r, r'), (y, n', s, s')) = good.crosses f c d m p q apart in
            ((x, app.stays c x m', r, r'), (y, app'.stays d y n', s, s'))
        | inr same ↦
            let from_c : from.idx ≡ c =
              some_inj from.idx c (sym at ∙ ap (λ x. get_elem? marks x.from.idx) (sym same) ∙ p) in
            let to_d : to.idx ≡ d =
              some_inj to.idx d (sym at' ∙ ap (λ x. get_elem? marks x.to.idx) (sym same) ∙ q) in
            (
              (there, subst (λ k. Elem there (entries graph k)) from_c app.added, sym same, to_d),
              (back, subst (λ k. Elem back (entries reversed k)) to_d app'.added, sym same, from_c),
            )
      ];
    }

  condense_edge_ok :
      (past : List Edge) (e : Edge) (g : CondensedGraph)
      → Elem e l.edges
      → IsCondensed marks comps count past g
      → (h : CondensedGraph) × (condense_edge marks comps ids e g ≡ ok h)
        × IsCondensed marks comps count (past ++ e ∷ []) h
  unfolding condense_edge
  condense_edge_ok past e g here good = elim (Bool-cases (contains ids e.id)) [
    | inl known ↦
        let (d, at, at') = collected-same e here (contains-Elem ids e.id known) in
        (g, rw (condense_edge, known) refl, IsCondensed-pass past e d g at at' good)
    | inr new ↦
        let place = linked.placed e here in
        let (to_idx, lt) = linked.target e.from.idx e place in
        let (from, run, at, from_lt, own) = link_of_ok e.from.idx (linked.sourced e here) in
        let (to, run', at', to_lt, own') = link_of_ok e.to.idx (omega (arith, to_idx, lt)) in
        let ne : from.idx ≡ to.idx → ⊥ = λ p.
          clash
            (Elem-contains ids e.id (
              same-collected e to.idx here to_lt
                (subst (λ k. get_elem? marks e.from.idx ≡ some (some k)) p at) at'))
            new in
        let (graph, run'', app) =
          append_at-Appended g.graph from.idx (there past e g good from to at at' ne own own')
            (omega (arith, from_lt, good.graph_size)) in
        let (reversed, run''', app') =
          append_at-Appended g.reversed to.idx (back past e g good from to at at' ne own own')
            (omega (arith, to_lt, good.reversed_size)) in
        (
          record { graph = graph; reversed = reversed; sequence = suc g.sequence },
          rw (condense_edge, new, run, run', run'', run''') refl,
          IsCondensed-crossed past e g good from to at at' ne own own' graph reversed app app',
        )
  ]
    where
      clash : {b : Bool} → b ≡ true → b ≡ false → ⊥
      clash p q = cc

  pub condense_edges_ok :
      (past edges : List Edge) (g : CondensedGraph)
      → ((e : Edge) → Elem e edges → Elem e l.edges)
      → IsCondensed marks comps count past g
      → (h : CondensedGraph) × (condense_edges marks comps ids edges g ≡ ok h)
        × IsCondensed marks comps count (past ++ edges) h
  unfolding condense_edges
  condense_edges_ok past [] g here good =
      (g, refl, subst (λ es. IsCondensed marks comps count es g) (sym (append-nil past)) good)
  condense_edges_ok past (e ∷ edges) g here good =
      let (h, run, good') = condense_edge_ok past e g (here e (inl refl)) good in
      let (r, run', good'') =
        condense_edges_ok (past ++ e ∷ []) edges h (λ d m. here d (inr m)) good' in
      (
        r,
        rw (condense_edges, run) run',
        subst (λ es. IsCondensed marks comps count es r) (append_assoc past (e ∷ []) edges) good'',
      )
