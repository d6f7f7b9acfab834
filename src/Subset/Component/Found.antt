-- ===== src/Subset/Component/Found.antt =====
-- One call of findAllCyclesDfs of subset/component.go.
use greenmask.Common.{
  ℕ, zero, suc, ◌⊎◌, inl, inr, refl, sym, ◌∙◌, List, [], ◌∷◌, ◌++◌, true, false, Bool-cases, Bytes,
  arith,
}
use greenmask.Subset.Reach.{
  Elem, Elem-left, Elem-right, Elem-snoc, Before-append, Before-snoc, IsDistinct-snoc,
}
use greenmask.Subset.Types.{Edge}
use greenmask.Subset.Component.{edges_of, CycleSearch, assign, find_all_cycles_dfs}
use greenmask.Subset.Component.Cycles.{IsInner, keys}
use greenmask.Subset.Component.Assign.{
  assign-same, assign-keeps, assign-true, assign-false, assign-other, left-assign,
}
use greenmask.Subset.Component.Search.{
  HasCycle, IsSort, Searched, Later, Visits, clash, each_cycle_edge_ok,
}

module _ (sort_edges : List Edge → List Edge) (sort_strings : List Bytes → List Bytes)
    (is_sort : IsSort sort_edges) (graph : List (ℕ × List Edge)) (inner : IsInner graph) where
  abbrev State : List ℕ → List ℕ → CycleSearch → Type 0
  State = Searched sort_edges sort_strings is_sort graph inner

  abbrev Step : CycleSearch → List ℕ → CycleSearch → List ℕ → Type 0
  Step = Later sort_edges sort_strings is_sort graph inner

  abbrev entered : ℕ → CycleSearch → CycleSearch
  entered v s = record s {
    visited = assign s.visited v true;
    rec_stack = assign s.rec_stack v true;
  }

  abbrev returned : ℕ → CycleSearch → CycleSearch
  returned v t = record t { rec_stack = assign t.rec_stack v false }

  State-entered :
      (v : ℕ) (stack done : List ℕ) (s : CycleSearch)
      → State stack done s
      → State (v ∷ stack) done (entered v s)
  State-entered v stack done s good = record {
    covered = λ u h. elim (assign-true s.visited v u h) [
      | inl e ↦ inr (inl e)
      | inr h' ↦ elim (good.covered u h') [ inl a ↦ inl a | inr b ↦ inr (inr b) ]
    ];
    visited = λ u h. elim h [
      | inl a ↦ assign-keeps s.visited v u (good.visited u (inl a))
      | inr b ↦ elim b [
        | inl e ↦ rw e (assign-same s.visited v true)
        | inr c ↦ assign-keeps s.visited v u (good.visited u (inr c))
      ]
    ];
    on_stack = λ u h. elim (assign-true s.rec_stack v u h) [
      | inl e ↦ inl e
      | inr h' ↦ inr (good.on_stack u h')
    ];
    stacked = λ u h. elim h [
      | inl e ↦ rw e (assign-same s.rec_stack v true)
      | inr h' ↦ assign-keeps s.rec_stack v u (good.stacked u h')
    ];
    clear = good.clear;
    distinct = good.distinct;
    sound = good.sound;
    heard = good.heard;
  }

  State-returned :
      (v : ℕ) (stack done : List ℕ) (t : CycleSearch)
      → State (v ∷ stack) done t
      → (¬ Elem v stack)
      → (¬ Elem v done)
      → HasCycle t ⊎ ((e : Edge) → Elem e (edges_of graph v) → Elem e.idx done)
      → State stack (done ++ v ∷ []) (returned v t)
  State-returned v stack done t good off new settled = record {
    covered = λ u h. elim (good.covered u h) [
      | inl a ↦ inl (Elem-left u done (v ∷ []) a)
      | inr b ↦ elim b [ inl e ↦ inl (Elem-right u done (v ∷ []) (inl e)) | inr c ↦ inr c ]
    ];
    visited = λ u h. elim h [
      | inl a ↦ elim (Elem-snoc u v done a) [
        | inl a' ↦ good.visited u (inl a')
        | inr e ↦ good.visited u (inr (inl e))
      ]
      | inr b ↦ good.visited u (inr (inr b))
    ];
    on_stack = λ u h.
        let (ne, h') = assign-false t.rec_stack v u h in
        elim (good.on_stack u h') [ inl e ↦ absurd (ne e) | inr b ↦ b ];
    stacked =
        λ u h. assign-other t.rec_stack v u false (λ e. off (rw e h)) ∙ good.stacked u (inr h);
    clear = elim good.clear [
      | inl found ↦ inl found
      | inr before ↦ elim settled [
        | inl found ↦ inl found
        | inr all ↦ inr (λ u e h edge. elim (Elem-snoc u v done h) [
          | inl a ↦ Before-append e.idx u done (v ∷ []) (before u e a edge)
          | inr p ↦ rw p (Before-snoc e.idx v done (all e (rw (sym p) edge)))
        ])
      ]
    ];
    distinct = IsDistinct-snoc v done good.distinct new;
    sound = good.sound;
    heard = good.heard;
  }

  pub find_all_cycles_dfs_ok :
      (fuel : ℕ)
      → Visits sort_edges sort_strings is_sort graph inner fuel
          (find_all_cycles_dfs sort_edges sort_strings graph fuel)
  unfolding find_all_cycles_dfs
  find_all_cycles_dfs_ok zero v stack path done s trail good here new few =
      absurd (omega (arith, left-assign s.visited v (keys graph) here new))
  find_all_cycles_dfs_ok (suc fuel) v stack path done s trail good here new few =
      let less = left-assign s.visited v (keys graph) here new in
      let (t, done', run, good', later, settled) =
        each_cycle_edge_ok sort_edges sort_strings is_sort graph inner fuel
          (find_all_cycles_dfs sort_edges sort_strings graph fuel) (find_all_cycles_dfs_ok fuel) v
          stack path trail (sort_edges (edges_of graph v)) done (entered v s)
          (λ e h. is_sort.sorted e (edges_of graph v) h) (State-entered v stack done s good)
          (omega (arith, less)) in
      let unmarked : ¬ Elem v done' = λ h. elim (later.fresh v h) [
        | inl a ↦ clash sort_edges sort_strings is_sort graph inner (good.visited v (inl a)) new
        | inr e ↦ clash sort_edges sort_strings is_sort graph inner (assign-same s.visited v true) e
      ] in
      (
        returned v t,
        done' ++ v ∷ [],
        rw run refl,
        State-returned v stack done' t good'
            (λ h. clash sort_edges sort_strings is_sort graph inner (good.visited v (inr h)) new)
            unmarked
            (elim settled [
              | inl found ↦ inl found
              | inr all ↦ inr (λ e h. all e (is_sort.sorts e (edges_of graph v) h))
            ]),
        record {
          keeps = λ u h. later.keeps u (assign-keeps s.visited v u h);
          fewer = omega (arith, less, later.fewer);
          kept = λ u h. Elem-left u done' (v ∷ []) (later.kept u h);
          fresh = λ u h. elim (Elem-snoc u v done' h) [
            | inl a ↦ elim (later.fresh u a) [
              | inl b ↦ inl b
              | inr e ↦ elim (Bool-cases (s.visited u)) [
                | inl seen ↦ absurd (
                    clash sort_edges sort_strings is_sort graph inner
                      (assign-keeps s.visited v u seen) e)
                | inr e' ↦ inr e'
              ]
            ]
            | inr e ↦ inr (rw e new)
          ];
          found = later.found;
        },
        Elem-right v done' (v ∷ []) (inl refl),
      )
