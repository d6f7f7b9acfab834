-- ===== src/Subset/Dfs/PostOrder.antt =====
-- What topologicalSortDfs leaves behind: a call on a vertex ends, and in the order that it appends to,
-- all that a vertex reaches stands before some vertex of the same component.
use greenmask.Common.{
  ℕ, zero, suc, ◌<◌, ◌≤◌, ◌≡◌, ◌⊎◌, inl, inr, refl, sym, ◌∙◌, some, List, [], ◌∷◌, ◌++◌, Bool, true,
  false, Bool-cases, ok, Exec, length, length-set, set, arith,
}
use greenmask.Subset.Reach.{
  Elem, Elem-left, Elem-right, Elem-snoc, Before, Before-append, Before-snoc, IsDistinct,
  IsDistinct-snoc, targets, Walk, stop, go, Walk-trans, Walk-edge, Mutual,
}
use greenmask.Subset.Dfs.{Search, each_unvisited, topological_sort_dfs}
use greenmask.Subset.Dfs.Marks.{
  is_seen, unseen, is_visited_ok, mark_ok, row_ok, unseen-set, seen-set-same, seen-set-keeps,
  seen-set-inv,
}

-- Every edge leads to a vertex.
abbrev pub IsGraph : List (List ℕ) → Type 0
IsGraph graph = (u w : ℕ) → Elem w (targets graph u) → w < length graph

module _ (graph : List (List ℕ)) (is_graph : IsGraph graph) where
  -- A vertex of the component of `u` that stands at or behind `w` in the order, or is on the stack.
  abbrev pub Led : List ℕ → List ℕ → ℕ → ℕ → Type 0
  Led stack order u w =
      ((x : ℕ) × Mutual graph u x × Elem x order × ((w ≡ x) ⊎ Before w x order))
      ⊎ ((x : ℕ) × Mutual graph u x × Elem x stack)

  -- The state between two steps, with the vertices whose calls have not returned.
  pub record Good (stack : List ℕ) (s : Search) : Type 0 where
    pub size : length s.visited ≡ length graph
    pub covered : (u : ℕ) → is_seen s.visited u ≡ true → Elem u s.order ⊎ Elem u stack
    pub pushed : (u : ℕ) → Elem u s.order → is_seen s.visited u ≡ true
    pub waiting : (u : ℕ) → Elem u stack → is_seen s.visited u ≡ true
    pub closed : (u w : ℕ) → Elem u s.order → Elem w (targets graph u) → is_seen s.visited w ≡ true
    pub led : (u w : ℕ) → Elem u s.order → Walk graph w u → Led stack s.order u w
    pub distinct : IsDistinct s.order

  pub record Grow (s t : Search) : Type 0 where
    pub keeps : (u : ℕ) → is_seen s.visited u ≡ true → is_seen t.visited u ≡ true
    pub fresh : (u : ℕ) → Elem u t.order → Elem u s.order ⊎ (is_seen s.visited u ≡ false)
    pub fewer : unseen t.visited ≤ unseen s.visited

  Grow-refl : (s : Search) → Grow s s
  Grow-refl s = record { keeps = λ u h. h; fresh = λ u h. inl h; fewer = omega arith }

  unseen_before :
      (s t : Search) (u : ℕ)
      → ((is_seen s.visited u ≡ true) → is_seen t.visited u ≡ true)
      → is_seen t.visited u ≡ false
      → is_seen s.visited u ≡ false
  unseen_before s t u keeps h = elim (Bool-cases (is_seen s.visited u)) [
    | inl e ↦ absurd (true-ne-false (sym (keeps e) ∙ h))
    | inr e ↦ e
  ]
    where
      true-ne-false : true ≡ false → ⊥
      true-ne-false e = cc

  Grow-trans : (s t r : Search) → Grow s t → Grow t r → Grow s r
  Grow-trans s t r g h = record {
    keeps = λ u e. h.keeps u (g.keeps u e);
    fresh = λ u m. elim (h.fresh u m) [
      | inl m' ↦ g.fresh u m'
      | inr e ↦ inr (unseen_before s t u (g.keeps u) e)
    ];
    fewer = omega (arith, g.fewer, h.fewer);
  }

  -- The vertices of the stack lead to `v`.
  abbrev pub LeadTo : ℕ → List ℕ → Type 0
  LeadTo v stack = (x : ℕ) → Elem x stack → Walk graph v x

  -- A call of the search on a vertex that is not visited, with at most `bound` of them.
  abbrev pub Visits : ℕ → (ℕ → Exec Search (Unit {0})) → Type 0
  Visits bound again =
      (stack : List ℕ) (v : ℕ) (s : Search)
      → Good stack s
      → v < length graph
      → is_seen s.visited v ≡ false
      → unseen s.visited ≤ bound
      → LeadTo v stack
      → (t : Search) × (again v s ≡ ok (tt, t))
        × Good stack t
        × Grow s t
        × (is_seen t.visited v ≡ true)

  pub each-Visits :
      (bound : ℕ) (again : ℕ → Exec Search (Unit {0}))
      → Visits bound again
      → (stack ws : List ℕ) (s : Search) → Good stack s
      → ((w : ℕ) → Elem w ws → w < length graph)
      → ((w : ℕ) → Elem w ws → LeadTo w stack)
      → unseen s.visited ≤ bound
      → (t : Search) × (each_unvisited again ws s ≡ ok (tt, t))
        × Good stack t
        × Grow s t
        × ((w : ℕ) → Elem w ws → is_seen t.visited w ≡ true)
  unfolding each_unvisited
  each-Visits bound again visits stack [] s good small lead few =
      (s, refl, good, Grow-refl s, λ w h. absurd h)
  each-Visits bound again visits stack (w ∷ ws) s good small lead few =
      let in_range : w < length s.visited = omega (arith, small w (inl refl), good.size) in
      elim (Bool-cases (is_seen s.visited w)) [
        | inl e ↦
            let (t, run, good', grow, all) =
              each-Visits bound again visits stack ws s good (λ x h. small x (inr h))
                (λ x h. lead x (inr h)) few in
            (
              t,
              (rw (is_visited_ok w s in_range, e) run),
              good',
              grow,
              λ x h. elim h [ inl same ↦ rw same (grow.keeps w e) | inr h' ↦ all x h' ],
            )
        | inr e ↦
            let (t, run, good', grow, seen) =
              visits stack w s good (small w (inl refl)) e few (lead w (inl refl)) in
            let (r, run', good'', grow', all) =
              each-Visits bound again visits stack ws t good' (λ x h. small x (inr h))
                (λ x h. lead x (inr h)) (omega (arith, grow.fewer)) in
            (
              r,
              (rw (is_visited_ok w s in_range, e, run) run'),
              good'',
              Grow-trans s t r grow grow',
              λ x h. elim h [ inl same ↦ rw same (grow'.keeps w seen) | inr h' ↦ all x h' ],
            )
      ]

  Led-more :
      (stack : List ℕ) (order : List ℕ) (u w v : ℕ)
      → Led stack order u w
      → Led (v ∷ stack) order u w
  Led-more stack order u w v (inl h) = inl h
  Led-more stack order u w v (inr (x, m, h)) = inr (x, m, inr h)

  abbrev marked : ℕ → Search → Search
  marked v s = record s { visited = set s.visited v (some 1) }

  Good-marked :
      (stack : List ℕ) (v : ℕ) (s : Search)
      → Good stack s
      → v < length s.visited
      → Good (v ∷ stack) (marked v s)
  Good-marked stack v s good lt = record {
    size = length-set s.visited v (some 1) ∙ good.size;
    covered = λ u h. elim (seen-set-inv s.visited v 1 u lt h) [
      | inl e ↦ inr (inl e)
      | inr h' ↦ elim (good.covered u h') [ inl a ↦ inl a | inr b ↦ inr (inr b) ]
    ];
    pushed = λ u h. seen-set-keeps s.visited v 1 u lt (good.pushed u h);
    waiting = λ u h. elim h [
      | inl e ↦ rw e (seen-set-same s.visited v 1 lt)
      | inr h' ↦ seen-set-keeps s.visited v 1 u lt (good.waiting u h')
    ];
    closed = λ u w h e. seen-set-keeps s.visited v 1 w lt (good.closed u w h e);
    led = λ u w h p. Led-more stack s.order u w v (good.led u w h p);
    distinct = good.distinct;
  }

  abbrev pushed_on : ℕ → Search → Search
  pushed_on v t = record t { order = t.order ++ v ∷ [] }

  module _ (stack : List ℕ) (v : ℕ) (t : Search) (good : Good (v ∷ stack) t) (lead : LeadTo v stack)
      (all : (w : ℕ) → Elem w (targets graph v) → is_seen t.visited w ≡ true) where
    -- All that `v` reaches is in the order or `v` itself, unless the component of `v` is on the stack.
    reached :
        (w z : ℕ)
        → (z ≡ v) ⊎ Elem z t.order
        → Walk graph z v
        → Walk graph w z
        → ((w ≡ v) ⊎ Elem w t.order) ⊎ ((x : ℕ) × Mutual graph v x × Elem x stack)
    reached w z here from (stop e) = inl (rw (sym e) here)
    reached w z here from (go {x = y} edge p) =
        next (λ h. reached w y h (Walk-trans from (Walk-edge edge)) p)
          (good.covered y (edge_seen here))
      where
        edge_seen : (z ≡ v) ⊎ Elem z t.order → is_seen t.visited y ≡ true
        edge_seen (inl e) = all y (rw (sym e) edge)
        edge_seen (inr h) = good.closed z y h edge

        next :
            ((y ≡ v) ⊎ Elem y t.order
              → ((w ≡ v) ⊎ Elem w t.order) ⊎ ((x : ℕ) × Mutual graph v x × Elem x stack))
            → Elem y t.order ⊎ Elem y (v ∷ stack)
            → ((w ≡ v) ⊎ Elem w t.order) ⊎ ((x : ℕ) × Mutual graph v x × Elem x stack)
        next rest (inl h) = rest (inr h)
        next rest (inr (inl e)) = rest (inl e)
        next rest (inr (inr h)) = inr (y, (Walk-trans from (Walk-edge edge), lead y h), h)

    -- The vertex that a mutual path leads to takes the place of `v` once that is pushed.
    Led-by : (u w : ℕ) → Mutual graph u v → Walk graph w v → Led stack (t.order ++ v ∷ []) u w
    Led-by u w m p = elim (reached w v (inl refl) (stop refl) p) [
      | inl here ↦ inl (
        v,
        m,
        Elem-right v t.order (v ∷ []) (inl refl),
        elim here [ inl e ↦ inl e | inr h ↦ inr (Before-snoc w v t.order h) ],
      )
      | inr (x, m', h) ↦ inr (x, (Walk-trans m.0 m'.0, Walk-trans m'.1 m.1), h)
    ]

    Led-on :
        (u w : ℕ) → Walk graph w u → Led (v ∷ stack) t.order u w → Led stack (t.order ++ v ∷ []) u w
    Led-on u w p (inl (x, m, h, here)) = inl (
      x,
      m,
      Elem-left x t.order (v ∷ []) h,
      elim here [ inl e ↦ inl e | inr b ↦ inr (Before-append w x t.order (v ∷ []) b) ],
    )
    Led-on u w p (inr (x, m, inl e)) =
        let m' : Mutual graph u v = rw (sym e) m in Led-by u w m' (Walk-trans m'.1 p)
    Led-on u w p (inr (x, m, inr h)) = inr (x, m, h)

    Good-pushed : (¬ Elem v t.order) → Good stack (pushed_on v t)
    Good-pushed fresh = record {
      size = good.size;
      covered = λ u h. elim (good.covered u h) [
        | inl a ↦ inl (Elem-left u t.order (v ∷ []) a)
        | inr b ↦ elim b [
          | inl e ↦ inl (rw e (Elem-right v t.order (v ∷ []) (inl refl)))
          | inr c ↦ inr c
        ]
      ];
      pushed = λ u h. elim (Elem-snoc u v t.order h) [
        | inl a ↦ good.pushed u a
        | inr e ↦ rw e (good.waiting v (inl refl))
      ];
      waiting = λ u h. good.waiting u (inr h);
      closed = λ u w h edge. elim (Elem-snoc u v t.order h) [
        | inl a ↦ good.closed u w a edge
        | inr e ↦ all w (rw (sym e) edge)
      ];
      led = λ u w h p. elim (Elem-snoc u v t.order h) [
        | inl a ↦ Led-on u w p (good.led u w a p)
        | inr e ↦ rw e (Led-by v w (stop refl, stop refl) (rw (sym e) p))
      ];
      distinct = IsDistinct-snoc v t.order good.distinct fresh;
    }

  Grow-pushed :
      (v : ℕ) (s t : Search)
      → v < length s.visited
      → is_seen s.visited v ≡ false
      → Grow (marked v s) t
      → Grow s (pushed_on v t)
  Grow-pushed v s t lt new grow = record {
    keeps = λ u h. grow.keeps u (seen-set-keeps s.visited v 1 u lt h);
    fresh = λ u h. elim (Elem-snoc u v t.order h) [
      | inl a ↦ elim (grow.fresh u a) [
        | inl a' ↦ inl a'
        | inr e ↦ inr (unseen_before s (marked v s) u (seen-set-keeps s.visited v 1 u lt) e)
      ]
      | inr e ↦ inr (rw e new)
    ];
    fewer = omega (arith, grow.fewer, unseen-set s.visited v 1 lt new);
  }

  -- A vertex whose call has just begun is not in the order that its targets leave.
  not_pushed :
      (stack : List ℕ) (v : ℕ) (s t : Search)
      → Good stack s
      → v < length s.visited
      → is_seen s.visited v ≡ false
      → Grow (marked v s) t
      → ¬ Elem v t.order
  not_pushed stack v s t good lt new grow h = elim (grow.fresh v h) [
    | inl a ↦ clash (good.pushed v a) new
    | inr e ↦ clash (seen-set-same s.visited v 1 lt) e
  ]
    where
      clash : {b : Bool} → b ≡ true → b ≡ false → ⊥
      clash e e' = cc

  topological_sort_dfs_step :
      (fuel v : ℕ) (s t : Search)
      → v < length graph
      → v < length s.visited
      → each_unvisited (topological_sort_dfs graph fuel) (targets graph v) (marked v s) ≡ ok (tt, t)
      → topological_sort_dfs graph (suc fuel) v s ≡ ok (tt, pushed_on v t)
  unfolding topological_sort_dfs
  topological_sort_dfs_step fuel v s t small lt run =
      rw (mark_ok 1 v s lt, row_ok graph v (marked v s) small, run) refl

  pub topological_sort_dfs-Visits : (fuel : ℕ) → Visits fuel (topological_sort_dfs graph fuel)
  topological_sort_dfs-Visits zero stack v s good small new few lead =
      absurd (omega (arith, unseen-set s.visited v 1 (omega (arith, good.size)) new))
  topological_sort_dfs-Visits (suc fuel) stack v s good small new few lead =
      let lt : v < length s.visited = omega (arith, good.size) in
      let (t, run, good', grow, all) =
        each-Visits fuel (topological_sort_dfs graph fuel) (topological_sort_dfs-Visits fuel)
          (v ∷ stack) (targets graph v) (marked v s) (Good-marked stack v s good lt)
          (λ w e. is_graph v w e)
          (λ w edge x h. elim h [
            | inl e ↦ rw e (Walk-edge edge)
            | inr h' ↦ Walk-trans (lead x h') (Walk-edge edge)
          ])
          (omega (arith, unseen-set s.visited v 1 lt new)) in
      (
        pushed_on v t,
        topological_sort_dfs_step fuel v s t small lt run,
        Good-pushed stack v t good' lead all (not_pushed stack v s t good lt new grow),
        Grow-pushed v s t lt new grow,
        good'.waiting v (inl refl),
      )
