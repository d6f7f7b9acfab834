-- ===== src/Subset/Component/Cycles.antt =====
-- The walks and cycles of a component, and the cycle that record_cycle of subset/component.go reads
-- off the path of the search.
use greenmask.Common.{
  ℕ, ◌≡◌, ◌≢◌, inl, inr, refl, sym, subst, ◌∙◌, none, some, List, [], ◌∷◌, ◌++◌, false, Bool-cases,
  if◌then◌else◌, ◌==◌, ==_iff, reverse, arith,
}
use greenmask.Subset.Reach.{Elem}
use greenmask.Subset.Types.{Edge}
use greenmask.Subset.Component.{edges_of, lookup, walk_back}

-- A walk along edges of the component.
abbrev pub IsWalk : List (ℕ × List Edge) → ℕ → List Edge → ℕ → Type 0
IsWalk graph u [] w = u ≡ w
IsWalk graph u (e ∷ edges) w = Elem e (edges_of graph u) × IsWalk graph e.idx edges w

-- A walk with an edge that ends where it begins.
abbrev pub IsCycle : List (ℕ × List Edge) → List Edge → Type 0
IsCycle graph [] = ⊥
IsCycle graph (e ∷ edges) = (u : ℕ) × IsWalk graph u (e ∷ edges) u

abbrev pub keys {ℓ} : {A : Type ℓ} → List (ℕ × A) → List ℕ
keys [] = []
keys ((v, a) ∷ entries) = v ∷ keys entries

-- Only a vertex of the component has edges.
pub edges_of-key :
    (graph : List (ℕ × List Edge)) (v : ℕ) (e : Edge)
    → Elem e (edges_of graph v)
    → Elem v (keys graph)
unfolding edges_of lookup
edges_of-key [] v e h = absurd h
edges_of-key ((u, edges) ∷ graph) v e h = elim (Bool-cases (u == v)) [
  | inl eq ↦ inl (sym ((==_iff u v).0 eq))
  | inr ne ↦ inr (
      edges_of-key graph v e (
        subst
          (λ b.
            Elem e (elim (if b then some edges else lookup graph v) [ none ↦ [] | some es ↦ es ]))
          ne h))
]

-- The edges at a vertex lead from it to vertices of the component.
abbrev pub IsInner : List (ℕ × List Edge) → Type 0
IsInner graph =
    (v : ℕ) (e : Edge)
    → Elem e (edges_of graph v)
    → (e.from.idx ≡ v) × (e.to.idx ≡ e.idx) × Elem e.idx (keys graph)

module _ (graph : List (ℕ × List Edge)) where
  IsWalk-snoc :
      (u v : ℕ) (edges : List Edge) (e : Edge)
      → IsWalk graph u edges v
      → Elem e (edges_of graph v)
      → IsWalk graph u (edges ++ e ∷ []) e.idx
  IsWalk-snoc u v [] e walk edge = (rw walk edge, refl)
  IsWalk-snoc u v (d ∷ edges) e (first, walk) edge = (first, IsWalk-snoc d.idx v edges e walk edge)

  -- The vertices of the stack are those of the path, which is given backwards.
  abbrev pub Trail : List ℕ → List Edge → Type 0
  Trail [] path = ⊥
  Trail (v ∷ []) [] = Unit
  Trail (v ∷ []) (e ∷ path) = ⊥
  Trail (w ∷ v ∷ stack) [] = ⊥
  Trail (w ∷ v ∷ stack) (e ∷ path) =
      (e.idx ≡ w) × Elem e (edges_of graph v) × Trail (v ∷ stack) path

  module _ (inner : IsInner graph) where
    -- The edge `e` is the one from `x`, or leads on from a walk.
    walk_back-step :
        (v : ℕ) (stack : List ℕ) (path : List Edge) (e : Edge) (x : ℕ)
        → Elem e (edges_of graph v)
        → Elem x (v ∷ stack)
        → (Elem x stack → IsWalk graph x (reverse (walk_back x path)) v)
        → IsWalk graph x (reverse (walk_back x (e ∷ path))) e.idx
    unfolding walk_back
    walk_back-step v stack path e x edge on_stack before = elim (Bool-cases (e.from.idx == x)) [
      | inl eq ↦
          let same : v ≡ x = sym ((inner v e edge).0) ∙ (==_iff e.from.idx x).0 eq in
          rw eq (rw (sym same) edge, refl)
      | inr ne ↦
          rw ne (IsWalk-snoc x v (reverse (walk_back x path)) e (before (behind on_stack ne)) edge)
    ]
      where
        differ : (k : ℕ) → k ≡ x → (k == x) ≡ false → ⊥
        differ k p q = ground arith

        behind : Elem x (v ∷ stack) → (e.from.idx == x) ≡ false → Elem x stack
        behind (inl h) ne = absurd (differ (e.from.idx) ((inner v e edge).0 ∙ sym h) ne)
        behind (inr h) ne = h

    -- The edges back to a vertex of the stack are a walk from it.
    pub walk_back-IsWalk :
        (v : ℕ) (stack : List ℕ) (path : List Edge) (e : Edge) (x : ℕ)
        → Trail (v ∷ stack) path
        → Elem e (edges_of graph v)
        → Elem x (v ∷ stack)
        → IsWalk graph x (reverse (walk_back x (e ∷ path))) e.idx
    walk_back-IsWalk v [] path e x trail edge on_stack =
        walk_back-step v [] path e x edge on_stack (λ h. absurd h)
    walk_back-IsWalk v (u ∷ stack) [] e x trail edge on_stack = absurd trail
    walk_back-IsWalk v (u ∷ stack) (d ∷ path) e x (to, edge', trail) edge on_stack =
        walk_back-step v (u ∷ stack) (d ∷ path) e x edge on_stack
          (λ h. rw (sym to) (walk_back-IsWalk u stack path d x trail edge' h))

    snoc_ne : (edges : List Edge) (d : Edge) → (edges ++ d ∷ []) ≢ []
    snoc_ne [] d h = cc
    snoc_ne (c ∷ edges) d h = cc

    some_edge : (k : ℕ) (d : Edge) (path : List Edge) → reverse (walk_back k (d ∷ path)) ≢ []
    unfolding walk_back
    some_edge k d path = elim (Bool-cases (d.from.idx == k)) [
      | inl eq ↦ rw eq (snoc_ne [] d)
      | inr ne ↦ rw ne (snoc_ne (reverse (walk_back k path)) d)
    ]

    IsCycle-of :
        (k : ℕ) (edges : List Edge) → (edges ≢ []) → IsWalk graph k edges k → IsCycle graph edges
    IsCycle-of k [] ne walk = absurd (ne refl)
    IsCycle-of k (d ∷ edges) ne walk = (k, walk)

    -- They are a cycle when the edge leads to that vertex.
    pub walk_back-IsCycle :
        (v : ℕ) (stack : List ℕ) (path : List Edge) (e : Edge) (k : ℕ)
        → k ≡ e.idx
        → Trail (v ∷ stack) path
        → Elem e (edges_of graph v)
        → Elem e.idx (v ∷ stack)
        → IsCycle graph (reverse (walk_back k (e ∷ path)))
    walk_back-IsCycle v stack path e k p trail edge on_stack = rw p (
        IsCycle-of e.idx (reverse (walk_back e.idx (e ∷ path))) (some_edge e.idx e path)
          (walk_back-IsWalk v stack path e e.idx trail edge on_stack))
