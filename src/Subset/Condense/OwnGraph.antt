-- ===== src/Subset/Condense/OwnGraph.antt =====
-- The graph of one component in buildCondensedGraph of subset/graph.go.
use greenmask.Common.{
  ℕ, zero, suc, ◌<◌, ◌≡◌, ◌⊎◌, inl, inr, refl, sym, ap, subst, none, some, List, [], ◌∷◌, ◌++◌, map,
  Bool, true, false, Bool-cases, if◌then◌else◌, ◌==◌, ==_iff, length, get_elem?, ok, arith,
}
use greenmask.Subset.Reach.{Elem, Elem-left, Elem-right, Elem-append}
use greenmask.Subset.Types.{Edge}
use greenmask.Subset.Component.{lookup, edges_of}
use greenmask.Subset.Component.Cycles.{edges_of-key}
use greenmask.Subset.Build.Appends.{entries}
use greenmask.Subset.Condense.{inner_edges, component_graph, edge_ids}
use greenmask.Subset.Condense.Vertexes.{IsComponentGraph, inner_edges-Elem, Elem-inner_edges}

pub get-some {ℓ} :
    {A : Type ℓ} (xs : List A) (i : ℕ) → i < length xs → (x : A) × (get_elem? xs i ≡ some x)
get-some [] i lt = absurd (omega arith)
get-some (x ∷ xs) zero lt = (x, refl)
get-some (x ∷ xs) (suc i) lt = get-some xs i (omega arith)

pub Elem-map : {A : Type 0} (f : A → ℕ) (x : A) (xs : List A) → Elem x xs → Elem (f x) (map f xs)
Elem-map f x [] h = absurd h
Elem-map f x (y ∷ ys) (inl p) = inl (ap f p)
Elem-map f x (y ∷ ys) (inr h) = inr (Elem-map f x ys h)

pub map-Elem :
    {A : Type 0} (f : A → ℕ) (n : ℕ) (xs : List A)
    → Elem n (map f xs)
    → (x : A) × Elem x xs × (f x ≡ n)
map-Elem f n [] h = absurd h
map-Elem f n (y ∷ ys) (inl p) = (y, inl refl, sym p)
map-Elem f n (y ∷ ys) (inr h) = let (x, m, p) = map-Elem f n ys h in (x, inr m, p)

entries_at :
    (graph : List (List Edge)) (v : ℕ) (edges : List Edge)
    → get_elem? graph v ≡ some edges
    → entries graph v ≡ edges
entries_at graph v edges at = rw (entries, at) refl

-- The edges of a vertex, those of the first entry or of the rest.
edges_of-cons :
    (v u : ℕ) (edges : List Edge) (own : List (ℕ × List Edge))
    → edges_of ((v, edges) ∷ own) u ≡ (if v == u then edges else edges_of own u)
unfolding edges_of lookup
edges_of-cons v u edges own = pick (v == u)
  where
    pick :
        (b : Bool)
        → (elim (if b then some edges else lookup own u) as (λ o. List Edge) [
          | none ↦ []
          | some es ↦ es
        ])
          ≡ (if b then edges else edges_of own u)
    pick true = refl
    pick false = refl

module _ (graph : List (List Edge)) (vertexes : List ℕ) where
  IsComponentGraph-cons :
      (v : ℕ) (vs : List ℕ) (edges : List Edge) (own : List (ℕ × List Edge))
      → entries graph v ≡ edges
      → IsComponentGraph graph vertexes vs own
      → IsComponentGraph graph vertexes (v ∷ vs) ((v, inner_edges vertexes edges) ∷ own)
  unfolding edge_ids
  IsComponentGraph-cons v vs edges own at good = record {
    all_keys = ap (λ ks. v ∷ ks) good.all_keys;
    inside = λ u e h.
        inside u e (Bool-cases (v == u)) (subst (λ es. Elem e es) (edges_of-cons v u inner own) h);
    collected = λ u e h m n. (
      subst (λ es. Elem e es) (sym (edges_of-cons v u inner own))
          (kept u e h m n (Bool-cases (v == u))),
      ids u e h m n,
    );
    from_inside = λ id h. elim (Elem-append id (map (λ e. e.id) inner) (edge_ids own) h) [
      | inl h' ↦
          let (e, m, p) = map-Elem (λ e. e.id) id inner h' in
          let (m', n) = inner_edges-Elem vertexes edges e m in
          (v, e, inl refl, subst (λ es. Elem e es) (sym at) m', n, p)
      | inr h' ↦ let (u, e, m, m', n, p) = good.from_inside id h' in (u, e, inr m, m', n, p)
    ];
  }
    where
      inner : List Edge
      inner = inner_edges vertexes edges

      here : (u : ℕ) → (v == u) ≡ true → entries graph u ≡ edges
      here u q = subst (λ k. entries graph k ≡ edges) ((==_iff v u).0 q) at

      inside :
          (u : ℕ) (e : Edge)
          → ((v == u) ≡ true) ⊎ ((v == u) ≡ false)
          → Elem e (if v == u then inner else edges_of own u)
          → Elem e (entries graph u) × Elem e.to.idx vertexes
      inside u e (inl q) h =
          let (m, n) =
            inner_edges-Elem vertexes edges e
              (subst (λ b. Elem e (if b then inner else edges_of own u)) q h) in
          (subst (λ es. Elem e es) (sym (here u q)) m, n)
      inside u e (inr q) h =
          good.inside u e (subst (λ b. Elem e (if b then inner else edges_of own u)) q h)

      differ : (u : ℕ) → u ≡ v → (v == u) ≡ false → ⊥
      differ u p q = ground arith

      behind : (u : ℕ) → Elem u (v ∷ vs) → (v == u) ≡ false → Elem u vs
      behind u (inl p) q = absurd (differ u p q)
      behind u (inr h) q = h

      kept :
          (u : ℕ) (e : Edge)
          → Elem u (v ∷ vs)
          → Elem e (entries graph u)
          → Elem e.to.idx vertexes
          → ((v == u) ≡ true) ⊎ ((v == u) ≡ false)
          → Elem e (if v == u then inner else edges_of own u)
      kept u e h m n (inl q) =
          rw q (Elem-inner_edges vertexes edges e (subst (λ es. Elem e es) (here u q) m) n)
      kept u e h m n (inr q) = rw q ((good.collected u e (behind u h q) m n).0)

      ids :
          (u : ℕ) (e : Edge)
          → Elem u (v ∷ vs)
          → Elem e (entries graph u)
          → Elem e.to.idx vertexes
          → Elem e.id (map (λ e. e.id) inner ++ edge_ids own)
      ids u e (inl p) m n = Elem-left e.id (map (λ e. e.id) inner) (edge_ids own) (
          Elem-map (λ e. e.id) e inner
            (Elem-inner_edges vertexes edges e
              (subst (λ es. Elem e es) at (subst (λ k. Elem e (entries graph k)) p m)) n))
      ids u e (inr h) m n =
          Elem-right e.id (map (λ e. e.id) inner) (edge_ids own) ((good.collected u e h m n).1)

  pub component_graph_ok :
      (vs : List ℕ)
      → ((v : ℕ) → Elem v vs → v < length graph)
      → (own : List (ℕ × List Edge)) × (component_graph graph vertexes vs ≡ ok own)
        × IsComponentGraph graph vertexes vs own
  unfolding component_graph edge_ids
  component_graph_ok [] small = ([], refl, nothing)
    where
      nothing : IsComponentGraph graph vertexes [] []
      nothing = record {
        all_keys = refl;
        inside = λ v e h. absurd (edges_of-key [] v e h);
        collected = λ v e h. absurd h;
        from_inside = λ id h. absurd h;
      }
  component_graph_ok (v ∷ vs) small =
      let (edges, at) = get-some graph v (small v (inl refl)) in
      let (own, run, good) = component_graph_ok vs (λ u h. small u (inr h)) in
      (
        (v, inner_edges vertexes edges) ∷ own,
        rw (component_graph, at, run) refl,
        IsComponentGraph-cons v vs edges own (entries_at graph v edges at) good,
      )
