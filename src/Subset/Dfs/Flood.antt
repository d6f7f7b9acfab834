-- ===== src/Subset/Dfs/Flood.antt =====
-- What markComponentDfs leaves behind: the marks that there were, and its component's mark on vertices
-- that lead to the one it was called on; and with a marked vertex all that lead to it are marked.
use greenmask.Common.{
  ℕ, zero, suc, ◌<◌, ◌≤◌, ◌≡◌, ◌⊎◌, inl, inr, refl, sym, ◌∙◌, some, List, [], ◌∷◌, true, false,
  Bool-cases, ok, Exec, length, length-set, get_elem?, set, arith,
}
use greenmask.Subset.Reach.{Elem, targets, targets-source, Walk, stop, Walk-trans, Walk-edge}
use greenmask.Subset.Dfs.{Search, each_unvisited, mark_component_dfs}
use greenmask.Subset.Dfs.Marks.{
  is_seen, unseen, is_visited_ok, mark_ok, row_ok, unseen-set, seen-set-same, seen-set-keeps,
  seen-set-inv, get-set-same, get-set-other,
}
use greenmask.Subset.Dfs.PostOrder.{IsGraph}

-- The reversed graph has an edge for each edge of the graph.
pub record IsReversed (graph reversed : List (List ℕ)) : Type 0 where
  pub same_length : length reversed ≡ length graph
  pub back : (u w : ℕ) → Elem w (targets graph u) → Elem u (targets reversed w)
  pub forth : (u w : ℕ) → Elem u (targets reversed w) → Elem w (targets graph u)

-- The loop over some vertices keeps what each call keeps, and leaves all of them visited.
pub each-rule :
    (I : Search → Type 0) (R : Search → Search → Type 0) (n : ℕ)
    (again : ℕ → Exec Search (Unit {0}))
    → ((s : Search) → I s → length s.visited ≡ n)
    → ((s : Search) → R s s)
    → ((s t r : Search) → R s t → R t r → R s r)
    → ((s t : Search) (u : ℕ) → R s t → is_seen s.visited u ≡ true → is_seen t.visited u ≡ true)
    → (ws : List ℕ) (s : Search) → I s
    → ((w : ℕ) → Elem w ws → w < n)
    → ((w : ℕ) (r : Search)
        → Elem w ws
        → I r
        → is_seen r.visited w ≡ false
        → (t : Search) × (again w r ≡ ok (tt, t)) × I t × R r t × (is_seen t.visited w ≡ true))
    → (t : Search) × (each_unvisited again ws s ≡ ok (tt, t))
      × I t
      × R s t
      × ((w : ℕ) → Elem w ws → is_seen t.visited w ≡ true)
unfolding each_unvisited
each-rule I R n again sized R-refl R-trans keeps [] s good small visits =
    (s, refl, good, R-refl s, λ w h. absurd h)
each-rule I R n again sized R-refl R-trans keeps (w ∷ ws) s good small visits =
    let in_range : w < length s.visited = omega (arith, small w (inl refl), sized s good) in
    let rest = λ (r : Search) (g : I r).
      each-rule I R n again sized R-refl R-trans keeps ws r g (λ x h. small x (inr h))
        (λ x q h. visits x q (inr h)) in
    elim (Bool-cases (is_seen s.visited w)) [
      | inl e ↦
          let (t, run, good', grow, all) = rest s good in
          (
            t,
            (rw (is_visited_ok w s in_range, e) run),
            good',
            grow,
            λ x h. elim h [ inl same ↦ rw same (keeps s t w grow e) | inr h' ↦ all x h' ],
          )
      | inr e ↦
          let (t, run, good', grow, seen) = visits w s (inl refl) good e in
          let (r, run', good'', grow', all) = rest t good' in
          (
            r,
            (rw (is_visited_ok w s in_range, e, run) run'),
            good'',
            R-trans s t r grow grow',
            λ x h. elim h [ inl same ↦ rw same (keeps t r w grow' seen) | inr h' ↦ all x h' ],
          )
    ]

module _ (graph reversed : List (List ℕ)) (is_graph : IsGraph graph)
    (back : IsReversed graph reversed) (component : ℕ) where
  -- With a marked vertex that is not on the stack all that lead to it are marked.
  pub record Closed (bound : ℕ) (stack : List ℕ) (s : Search) : Type 0 where
    pub size : length s.visited ≡ length graph
    pub closed :
        (y z : ℕ)
        → is_seen s.visited y ≡ true
        → Elem z (targets reversed y)
        → Elem y stack ⊎ (is_seen s.visited z ≡ true)
    pub few : unseen s.visited ≤ bound

  -- The marks between two states of a call on `v`.
  pub record Floods (v : ℕ) (s t : Search) : Type 0 where
    pub keeps : (u : ℕ) → is_seen s.visited u ≡ true → get_elem? t.visited u ≡ get_elem? s.visited u
    pub stays : (u : ℕ) → is_seen s.visited u ≡ true → is_seen t.visited u ≡ true
    pub fresh :
        (u : ℕ)
        → is_seen t.visited u ≡ true
        → (is_seen s.visited u ≡ true)
          ⊎ ((get_elem? t.visited u ≡ some (some component)) × Walk graph v u)
    pub order : t.order ≡ s.order

  Floods-refl : (v : ℕ) (s : Search) → Floods v s s
  Floods-refl v s = record {
    keeps = λ u h. refl;
    stays = λ u h. h;
    fresh = λ u h. inl h;
    order = refl;
  }

  Floods-trans : (v : ℕ) (s t r : Search) → Floods v s t → Floods v t r → Floods v s r
  Floods-trans v s t r g h = record {
    keeps = λ u e. h.keeps u (g.stays u e) ∙ g.keeps u e;
    stays = λ u e. h.stays u (g.stays u e);
    fresh = λ u e. elim (h.fresh u e) [
      | inl e' ↦ elim (g.fresh u e') [ inl e'' ↦ inl e'' | inr (m, p) ↦ inr (h.keeps u e' ∙ m, p) ]
      | inr found ↦ inr found
    ];
    order = h.order ∙ g.order;
  }

  Floods-edge : (v w : ℕ) (s t : Search) → Elem w (targets reversed v) → Floods w s t → Floods v s t
  Floods-edge v w s t edge g = record {
    keeps = g.keeps;
    stays = g.stays;
    fresh = λ u e. elim (g.fresh u e) [
      | inl e' ↦ inl e'
      | inr (m, p) ↦ inr (m, Walk-trans p (Walk-edge (back.forth w v edge)))
    ];
    order = g.order;
  }

  abbrev marked : ℕ → Search → Search
  marked v s = record s { visited = set s.visited v (some component) }

  Floods-marked :
      (v : ℕ) (s : Search)
      → v < length s.visited
      → is_seen s.visited v ≡ false
      → Floods v s (marked v s)
  Floods-marked v s lt new = record {
    keeps = λ u e. get-set-other s.visited v component u e new;
    stays = λ u e. seen-set-keeps s.visited v component u lt e;
    fresh = λ u e. elim (seen-set-inv s.visited v component u lt e) [
      | inl same ↦ inr (rw same (get-set-same s.visited v component lt), stop same)
      | inr e' ↦ inl e'
    ];
    order = refl;
  }

  Closed-marked :
      (bound v : ℕ) (stack : List ℕ) (s : Search)
      → Closed (suc bound) stack s
      → v < length s.visited
      → is_seen s.visited v ≡ false
      → Closed bound (v ∷ stack) (marked v s)
  Closed-marked bound v stack s good lt new = record {
    size = length-set s.visited v (some component) ∙ good.size;
    closed = λ y z e edge. elim (seen-set-inv s.visited v component y lt e) [
      | inl same ↦ inl (inl same)
      | inr e' ↦ elim (good.closed y z e' edge) [
        | inl h ↦ inl (inr h)
        | inr e'' ↦ inr (seen-set-keeps s.visited v component z lt e'')
      ]
    ];
    few = omega (arith, good.few, unseen-set s.visited v component lt new);
  }

  -- The call on `v` ends when its targets are marked.
  Closed-end :
      (bound v : ℕ) (stack : List ℕ) (t : Search)
      → Closed bound (v ∷ stack) t
      → ((w : ℕ) → Elem w (targets reversed v) → is_seen t.visited w ≡ true)
      → Closed (suc bound) stack t
  Closed-end bound v stack t good all = record {
    size = good.size;
    closed = λ y z e edge. elim (good.closed y z e edge) [
      | inl h ↦ elim h [ inl same ↦ inr (all z (rw (sym same) edge)) | inr h' ↦ inl h' ]
      | inr e' ↦ inr e'
    ];
    few = omega (arith, good.few);
  }

  mark_component_dfs_step :
      (fuel v : ℕ) (s t : Search)
      → v < length reversed
      → v < length s.visited
      → each_unvisited
          (mark_component_dfs reversed component fuel)
          (targets reversed v)
          (marked v s)
        ≡ ok (tt, t)
      → mark_component_dfs reversed component (suc fuel) v s ≡ ok (tt, t)
  unfolding mark_component_dfs
  mark_component_dfs_step fuel v s t small lt run =
      rw (mark_ok component v s lt, row_ok reversed v (marked v s) small) run

  -- A target in the reversed graph is a vertex.
  target_small : (v w : ℕ) → Elem w (targets reversed v) → w < length reversed
  target_small v w edge = rw back.same_length (targets-source graph w v (back.forth w v edge))

  pub mark_component_dfs-Floods :
      (fuel v : ℕ) (stack : List ℕ) (s : Search)
      → Closed fuel stack s
      → v < length graph
      → is_seen s.visited v ≡ false
      → (t : Search) × (mark_component_dfs reversed component fuel v s ≡ ok (tt, t))
        × Closed fuel stack t
        × Floods v s t
        × (is_seen t.visited v ≡ true)
  mark_component_dfs-Floods zero v stack s good small new =
      absurd
        (omega (arith, good.few, unseen-set s.visited v component (omega (arith, good.size)) new))
  mark_component_dfs-Floods (suc fuel) v stack s good small new =
      let lt : v < length s.visited = omega (arith, good.size) in
      let (t, run, good', flood, all) =
        each-rule (Closed fuel (v ∷ stack)) (Floods v) (length graph)
          (mark_component_dfs reversed component fuel) (λ r g. g.size) (Floods-refl v)
          (Floods-trans v) (λ r q u g e. g.stays u e) (targets reversed v) (marked v s)
          (Closed-marked fuel v stack s good lt new)
          (λ w edge. omega (arith, target_small v w edge, back.same_length))
          (λ w r edge g e.
            let (q, run, g', flood, seen) =
              mark_component_dfs-Floods fuel w (v ∷ stack) r g
                (omega (arith, target_small v w edge, back.same_length)) e in
            (q, run, g', Floods-edge v w r q edge flood, seen)) in
      (
        t,
        mark_component_dfs_step fuel v s t (omega (arith, back.same_length)) lt run,
        Closed-end fuel v stack t good' all,
        Floods-trans v s (marked v s) t (Floods-marked v s lt new) flood,
        flood.stays v (seen-set-same s.visited v component lt),
      )
