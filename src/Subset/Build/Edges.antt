-- ===== src/Subset/Build/Edges.antt =====
-- The edges of NewGraph: each stands at its source, in the list of all edges, and turned around in
-- the reversed graph of indices.
use greenmask.Common.{
  ℕ, suc, ◌<◌, ◌≡◌, ◌⊎◌, inl, inr, sym, ap, ◌∙◌, List, [], ◌∷◌, ◌++◌, length, arith,
}
use greenmask.Subset.Reach.{Elem, Elem-left, Elem-right, Elem-snoc}
use greenmask.Subset.Types.{Edge}
use greenmask.Subset.Build.{Links}
use greenmask.Subset.Build.Appends.{entries, Appended}

pub record IsLinked (n : ℕ) (l : Links) : Type 0 where
  pub graph_size : length l.graph ≡ n
  pub simple_size : length l.reversed_simple_graph ≡ n
  pub reversed_size : length l.reversed_graph ≡ n
  -- An edge of the graph leads from the vertex it stands at to a vertex, and is one of the edges.
  pub source : (u : ℕ) (e : Edge) → Elem e (entries l.graph u) → e.from.idx ≡ u
  pub target : (u : ℕ) (e : Edge) → Elem e (entries l.graph u) → (e.to.idx ≡ e.idx) × (e.idx < n)
  pub listed : (u : ℕ) (e : Edge) → Elem e (entries l.graph u) → Elem e l.edges
  pub placed : (e : Edge) → Elem e l.edges → Elem e (entries l.graph e.from.idx)
  pub sourced : (e : Edge) → Elem e l.edges → e.from.idx < n
  -- The reversed graph of indices has the source of each edge at its target, and nothing else.
  pub back :
      (u : ℕ) (e : Edge)
      → Elem e (entries l.graph u)
      → Elem u (entries l.reversed_simple_graph e.idx)
  pub forth :
      (w u : ℕ)
      → Elem u (entries l.reversed_simple_graph w)
      → (e : Edge) × Elem e (entries l.graph u) × (e.idx ≡ w)
  -- An edge of the reversed graph is one of the graph, with its identifier.
  pub foreign :
      (w : ℕ) (r : Edge)
      → Elem r (entries l.reversed_graph w)
      → (e : Edge) × Elem e (entries l.graph r.idx) × (e.idx ≡ w) × (e.id ≡ r.id)
  -- The identifiers tell the edges apart.
  pub below : (e : Edge) → Elem e l.edges → e.id < l.edge_id_sequence
  pub unique : (e f : Edge) → Elem e l.edges → Elem f l.edges → e.id ≡ f.id → e ≡ f

module _ (n i j : ℕ) (l : Links) (linked : IsLinked n l) (edge : Edge) (i_lt : i < n) (j_lt : j < n)
    (e_id : edge.id ≡ l.edge_id_sequence) (e_idx : edge.idx ≡ j) (e_from : edge.from.idx ≡ i)
    (e_to : edge.to.idx ≡ j) where
  abbrev pub grown : List (List Edge) → List (List Edge) → List (List ℕ) → Links
  grown graph reversed simple = record {
    graph = graph;
    reversed_graph = reversed;
    reversed_simple_graph = simple;
    edges = l.edges ++ edge ∷ [];
    edge_id_sequence = suc l.edge_id_sequence;
  }

  module _ (graph reversed : List (List Edge)) (simple : List (List ℕ))
      (app : Appended l.graph i edge graph) (app' : Appended l.reversed_simple_graph j i simple)
      (reversed_size : length reversed ≡ n)
      (reversed_fresh : (w : ℕ) (r : Edge)
        → Elem r (entries reversed w)
        → Elem r (entries l.reversed_graph w)
          ⊎ ((w ≡ j) × (r.idx ≡ i) × (r.id ≡ l.edge_id_sequence))) where
    back_on : (u : ℕ) (e : Edge) → Elem e (entries graph u) → Elem u (entries simple e.idx)
    back_on u e h = elim (app.fresh u e h) [
      | inl m ↦ app'.stays e.idx u (linked.back u e m)
      | inr (a, b) ↦ rw (a, b, e_idx) app'.added
    ]

    forth_on :
        (w u : ℕ) → Elem u (entries simple w) → (e : Edge) × Elem e (entries graph u) × (e.idx ≡ w)
    forth_on w u h = elim (app'.fresh w u h) [
      | inl m ↦ let (e, m', eq) = linked.forth w u m in (e, app.stays u e m', eq)
      | inr (a, b) ↦ (edge, rw b app.added, e_idx ∙ sym a)
    ]

    unique_on :
        (e f : Edge)
        → Elem e (l.edges ++ edge ∷ [])
        → Elem f (l.edges ++ edge ∷ [])
        → e.id ≡ f.id
        → e ≡ f
    unique_on e f h g same = elim (Elem-snoc e edge l.edges h) [
      | inl h' ↦ elim (Elem-snoc f edge l.edges g) [
        | inl g' ↦ linked.unique e f h' g' same
        | inr q ↦
            let q' : f.id ≡ edge.id = ap (λ x. x.id) q in
            absurd (omega (arith, linked.below e h', same, q', e_id))
      ]
      | inr p ↦ elim (Elem-snoc f edge l.edges g) [
        | inl g' ↦
            let p' : e.id ≡ edge.id = ap (λ x. x.id) p in
            absurd (omega (arith, linked.below f g', same, p', e_id))
        | inr q ↦ p ∙ sym q
      ]
    ]

    foreign_on :
        (w : ℕ) (r : Edge)
        → Elem r (entries reversed w)
        → (e : Edge) × Elem e (entries graph r.idx) × (e.idx ≡ w) × (e.id ≡ r.id)
    foreign_on w r h = elim (reversed_fresh w r h) [
      | inl m ↦ let (e, m', eq, eq') = linked.foreign w r m in (e, app.stays r.idx e m', eq, eq')
      | inr (a, b, c) ↦ (edge, rw b app.added, e_idx ∙ sym a, e_id ∙ sym c)
    ]

    edge_at : (k : ℕ) → k ≡ i → Elem edge (entries graph k)
    edge_at k p = rw p app.added

    pub IsLinked-grown : IsLinked n (grown graph reversed simple)
    IsLinked-grown = record {
      graph_size = app.same_length ∙ linked.graph_size;
      simple_size = app'.same_length ∙ linked.simple_size;
      reversed_size = reversed_size;
      source = λ u e h. elim (app.fresh u e h) [
        | inl m ↦ linked.source u e m
        | inr (a, b) ↦ rw (a, b) e_from
      ];
      target = λ u e h. elim (app.fresh u e h) [
        | inl m ↦ linked.target u e m
        | inr (a, b) ↦ rw b (e_to ∙ sym e_idx, omega (arith, e_idx))
      ];
      listed = λ u e h. elim (app.fresh u e h) [
        | inl m ↦ Elem-left e l.edges (edge ∷ []) (linked.listed u e m)
        | inr (a, b) ↦ Elem-right e l.edges (edge ∷ []) (inl b)
      ];
      placed = λ e h. elim (Elem-snoc e edge l.edges h) [
        | inl m ↦ app.stays e.from.idx e (linked.placed e m)
        | inr b ↦ rw b (edge_at edge.from.idx e_from)
      ];
      sourced = λ e h. elim (Elem-snoc e edge l.edges h) [
        | inl m ↦ linked.sourced e m
        | inr b ↦ rw (b, e_from) i_lt
      ];
      back = back_on;
      forth = forth_on;
      foreign = foreign_on;
      below = λ e h. elim (Elem-snoc e edge l.edges h) [
        | inl m ↦ omega (arith, linked.below e m)
        | inr b ↦ let b' : e.id ≡ edge.id = ap (λ x. x.id) b in omega (arith, b', e_id)
      ];
      unique = unique_on;
    }
