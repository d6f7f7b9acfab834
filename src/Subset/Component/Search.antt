-- ===== src/Subset/Component/Search.antt =====
-- findAllCyclesDfs of subset/component.go: it ends, what it records are cycles, and unless it records
-- one, each edge leads to a vertex whose call has returned before.
use greenmask.Common.{
  ℕ, ◌≤◌, ◌≡◌, ◌⊎◌, inl, inr, refl, subst, ◌∙◌, List, [], ◌∷◌, ◌++◌, Bool, true, false, Bool-cases,
  reverse, reverse-reverse, Exec, Result, ok, Bytes, arith,
}
use greenmask.Subset.Reach.{Elem, Elem-right, Elem-snoc, Before, IsDistinct}
use greenmask.Subset.Types.{Edge}
use greenmask.Subset.Component.{
  edges_of, walk_back, contains_bytes, CycleSearch, record_cycle, get_cycle_id, each_cycle_edge,
}
use greenmask.Subset.Component.Cycles.{IsCycle, IsInner, keys, Trail, walk_back-IsCycle}
use greenmask.Subset.Component.Assign.{left}

abbrev pub HasCycle : CycleSearch → Type 0
HasCycle s = (c : List Edge) × Elem c s.cycles

-- The sort of the edges loses none and makes up none.
pub record IsSort (sort_edges : List Edge → List Edge) : Type 0 where
  pub sorts : (e : Edge) (edges : List Edge) → Elem e edges → Elem e (sort_edges edges)
  pub sorted : (e : Edge) (edges : List Edge) → Elem e (sort_edges edges) → Elem e edges

module _ (sort_edges : List Edge → List Edge) (sort_strings : List Bytes → List Bytes)
    (is_sort : IsSort sort_edges) (graph : List (ℕ × List Edge)) (inner : IsInner graph) where
  -- Between two steps: the calls on the vertices of the stack have not returned, those on the vertices
  -- of `done` have, in this order.
  pub record Searched (stack done : List ℕ) (s : CycleSearch) : Type 0 where
    pub covered : (u : ℕ) → s.visited u ≡ true → Elem u done ⊎ Elem u stack
    pub visited : (u : ℕ) → Elem u done ⊎ Elem u stack → s.visited u ≡ true
    pub on_stack : (u : ℕ) → s.rec_stack u ≡ true → Elem u stack
    pub stacked : (u : ℕ) → Elem u stack → s.rec_stack u ≡ true
    pub clear :
        HasCycle s
        ⊎ ((u : ℕ) (e : Edge) → Elem u done → Elem e (edges_of graph u) → Before e.idx u done)
    pub distinct : IsDistinct done
    pub sound : (c : List Edge) → Elem c s.cycles → IsCycle graph c
    pub heard : HasCycle s ⊎ (s.cycles_idents ≡ [])

  pub record Later (s : CycleSearch) (done : List ℕ) (t : CycleSearch) (done' : List ℕ)
      : Type 0 where
    pub keeps : (u : ℕ) → s.visited u ≡ true → t.visited u ≡ true
    pub fewer : left t.visited (keys graph) ≤ left s.visited (keys graph)
    pub kept : (u : ℕ) → Elem u done → Elem u done'
    pub fresh : (u : ℕ) → Elem u done' → Elem u done ⊎ (s.visited u ≡ false)
    pub found : HasCycle s → HasCycle t

  pub Later-refl : (s : CycleSearch) (done : List ℕ) → Later s done s done
  Later-refl s done = record {
    keeps = λ u h. h;
    fewer = omega arith;
    kept = λ u h. h;
    fresh = λ u h. inl h;
    found = λ h. h;
  }

  pub Later-trans :
      (s t r : CycleSearch) (done done' done'' : List ℕ)
      → Later s done t done'
      → Later t done' r done''
      → Later s done r done''
  Later-trans s t r done done' done'' g h = record {
    keeps = λ u e. h.keeps u (g.keeps u e);
    fewer = omega (arith, g.fewer, h.fewer);
    kept = λ u e. h.kept u (g.kept u e);
    fresh = λ u e. elim (h.fresh u e) [
      | inl m ↦ g.fresh u m
      | inr f ↦ elim (Bool-cases (s.visited u)) [
        | inl f' ↦ absurd (clash (g.keeps u f') f)
        | inr f' ↦ inr f'
      ]
    ];
    found = λ e. h.found (g.found e);
  }
    where
      clash : {b : Bool} → b ≡ true → b ≡ false → ⊥
      clash p q = cc

  -- What a call on `w` leaves behind.
  abbrev pub Visited : List ℕ → List ℕ → CycleSearch → ℕ → Result (Unit {0} × CycleSearch) → Type 0
  Visited stack done s w r =
      (t : CycleSearch) × (done' : List ℕ) × (r ≡ ok (tt, t))
      × Searched stack done' t
      × Later s done t done'
      × Elem w done'

  abbrev pub Visits : ℕ → (ℕ → List Edge → Exec CycleSearch (Unit {0})) → Type 0
  Visits bound again =
      (w : ℕ) (stack : List ℕ) (path : List Edge) (done : List ℕ) (s : CycleSearch)
      → Trail graph (w ∷ stack) path
      → Searched stack done s
      → Elem w (keys graph)
      → s.visited w ≡ false
      → left s.visited (keys graph) ≤ bound
      → Visited stack done s w (again w (reverse path) s)

  abbrev with_cycle : List Edge → Bytes → CycleSearch → CycleSearch
  with_cycle c id s = record s { cycles = s.cycles ++ c ∷ []; cycles_idents = id ∷ s.cycles_idents }

  with_cycle-HasCycle :
      (c : List Edge) (id : Bytes) (s : CycleSearch) → HasCycle (with_cycle c id s)
  with_cycle-HasCycle c id s = (c, Elem-right c s.cycles (c ∷ []) (inl refl))

  Searched-with_cycle :
      (stack done : List ℕ) (c : List Edge) (id : Bytes) (s : CycleSearch)
      → Searched stack done s
      → IsCycle graph c
      → Searched stack done (with_cycle c id s)
  Searched-with_cycle stack done c id s good is_cycle = record {
    covered = good.covered;
    visited = good.visited;
    on_stack = good.on_stack;
    stacked = good.stacked;
    clear = inl (with_cycle-HasCycle c id s);
    distinct = good.distinct;
    sound =
        λ d h. elim (Elem-snoc d c s.cycles h) [ inl m ↦ good.sound d m | inr e ↦ rw e is_cycle ];
    heard = inl (with_cycle-HasCycle c id s);
  }

  -- A cycle whose identifier is known is not the first.
  known-HasCycle :
      (stack done : List ℕ) (id : Bytes) (s : CycleSearch)
      → Searched stack done s
      → contains_bytes id s.cycles_idents ≡ true
      → HasCycle s
  unfolding contains_bytes
  known-HasCycle stack done id s good h = elim good.heard [
    | inl found ↦ found
    | inr e ↦ absurd (clash (subst (λ ids. contains_bytes id ids ≡ true) e h))
  ]
    where
      clash : false ≡ true → ⊥
      clash p = cc

  -- A back edge closes a cycle, which is recorded unless one with its identifier was.
  record_cycle_ok :
      (v : ℕ) (stack : List ℕ) (path : List Edge) (e : Edge) (done : List ℕ) (s : CycleSearch)
      → Trail graph (v ∷ stack) path
      → Elem e (edges_of graph v)
      → Elem e.idx (v ∷ stack)
      → Searched (v ∷ stack) done s
      → (t : CycleSearch) × (record_cycle sort_edges sort_strings (reverse path ++ e ∷ []) e s
          ≡ ok (tt, t))
        × Searched (v ∷ stack) done t
        × Later s done t done
        × HasCycle t
  unfolding record_cycle
  record_cycle_ok v stack path e done s trail edge back good =
      let cycle = walk_back e.to.idx (e ∷ path) in
      let id = get_cycle_id sort_edges sort_strings cycle in
      let is_cycle =
        walk_back-IsCycle graph inner v stack path e e.to.idx ((inner v e edge).1) trail edge
          back in
      elim (Bool-cases (contains_bytes id s.cycles_idents)) [
        | inl known ↦ (
          s,
          rw (reverse-reverse (e ∷ path), known) refl,
          good,
          Later-refl s done,
          known-HasCycle (v ∷ stack) done id s good known,
        )
        | inr new ↦ (
          with_cycle (reverse cycle) id s,
          rw (reverse-reverse (e ∷ path), new) refl,
          Searched-with_cycle (v ∷ stack) done (reverse cycle) id s good is_cycle,
          record {
            keeps = λ u h. h;
            fewer = omega arith;
            kept = λ u h. h;
            fresh = λ u h. inl h;
            found = λ h. with_cycle-HasCycle (reverse cycle) id s;
          },
          with_cycle-HasCycle (reverse cycle) id s,
        )
      ]

  pub clash : {b : Bool} → b ≡ true → b ≡ false → ⊥
  clash p q = cc

  -- A cycle is recorded, or all targets are done.
  abbrev pub Settled : List Edge → List ℕ → CycleSearch → Type 0
  Settled edges done t = HasCycle t ⊎ ((e : Edge) → Elem e edges → Elem e.idx done)

  module _ (bound : ℕ) (again : ℕ → List Edge → Exec CycleSearch (Unit {0}))
      (visits : Visits bound again) (v : ℕ) (stack : List ℕ) (path : List Edge)
      (trail : Trail graph (v ∷ stack) path) where
    abbrev pub Looped : List Edge → List ℕ → CycleSearch → Result (Unit {0} × CycleSearch) → Type 0
    Looped edges done s r =
        (t : CycleSearch) × (done' : List ℕ) × (r ≡ ok (tt, t))
        × Searched (v ∷ stack) done' t
        × Later s done t done'
        × Settled edges done' t

    Settled-cons :
        (e : Edge) (edges : List Edge) (done done' : List ℕ) (s t : CycleSearch)
        → HasCycle s ⊎ Elem e.idx done
        → Later s done t done'
        → Settled edges done' t
        → Settled (e ∷ edges) done' t
    Settled-cons e edges done done' s t (inl found) later rest = inl (later.found found)
    Settled-cons e edges done done' s t (inr first) later (inl found) = inl found
    Settled-cons e edges done done' s t (inr first) later (inr rest) =
        inr (λ d h. elim h [ inl same ↦ later.kept d.idx (rw same first) | inr h' ↦ rest d h' ])

    not_stacked :
        (e : Edge) (done : List ℕ) (s : CycleSearch)
        → Searched (v ∷ stack) done s
        → s.visited e.idx ≡ true
        → s.rec_stack e.idx ≡ false
        → Elem e.idx done
    not_stacked e done s good seen off = elim (good.covered e.idx seen) [
      | inl h ↦ h
      | inr h ↦ absurd (clash (good.stacked e.idx h) off)
    ]

    Looped-cons :
        (e : Edge) (edges : List Edge) (done done' : List ℕ) (s t : CycleSearch)
        (r q : Result (Unit {0} × CycleSearch))
        → Later s done t done'
        → HasCycle t ⊎ Elem e.idx done'
        → q ≡ r
        → Looped edges done' t r
        → Looped (e ∷ edges) done s q
    Looped-cons e edges done done' s t r q later first same (u, done'', run, good, later', all) = (
      u,
      done'',
      same ∙ run,
      good,
      Later-trans s t u done done' done'' later later',
      Settled-cons e edges done' done'' t u first later' all,
    )

    pub each_cycle_edge_ok :
        (edges : List Edge) (done : List ℕ) (s : CycleSearch)
        → ((e : Edge) → Elem e edges → Elem e (edges_of graph v))
        → Searched (v ∷ stack) done s
        → left s.visited (keys graph) ≤ bound
        → Looped edges done s (each_cycle_edge sort_edges sort_strings again (reverse path) edges s)
    unfolding each_cycle_edge
    each_cycle_edge_ok [] done s within good few =
        (s, done, refl, good, Later-refl s done, inr (λ e h. absurd h))
    each_cycle_edge_ok (e ∷ edges) done s within good few = elim (Bool-cases (s.visited e.idx)) [
      | inl seen ↦ elim (Bool-cases (s.rec_stack e.idx)) [
        | inl on ↦
            let (t, run, good', later, found) =
              record_cycle_ok v stack path e done s trail (within e (inl refl))
                (good.on_stack e.idx on) good in
            Looped-cons e edges done done s t _ _ later (inl found) (rw (seen, on, run) refl) (
              each_cycle_edge_ok edges done t (λ d h. within d (inr h)) good'
                (omega (arith, later.fewer)))
        | inr off ↦
            Looped-cons e edges done done s s _ _ (Later-refl s done)
              (inr (not_stacked e done s good seen off)) (rw (seen, off) refl)
              (each_cycle_edge_ok edges done s (λ d h. within d (inr h)) good few)
      ]
      | inr new ↦
          let (t, done', run, good', later, first) =
            visits e.idx (v ∷ stack) (e ∷ path) done s (refl, within e (inl refl), trail) good
              ((inner v e (within e (inl refl))).2) new few in
          Looped-cons e edges done done' s t _ _ later (inr first) (rw (new, run) refl) (
            each_cycle_edge_ok edges done' t (λ d h. within d (inr h)) good'
              (omega (arith, later.fewer)))
    ]
