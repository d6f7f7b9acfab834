-- ===== src/Subset/Component/Whole.antt =====
-- findCycles of subset/component.go ends; what it records are cycles of the component; and it records
-- one if the component has any.
use greenmask.Common.{
  ℕ, ◌≤◌, ◌≡◌, ◌⊎◌, inl, inr, refl, subst, List, [], ◌∷◌, true, false, Bool-cases, length, ok,
  Bytes, arith,
}
use greenmask.Subset.Reach.{Elem, Before, Before-asym, Before-trans, Before-left, IsDistinct}
use greenmask.Subset.Types.{Edge}
use greenmask.Subset.Component.{edges_of, CycleSearch, each_vertex, find_cycles}
use greenmask.Subset.Component.Cycles.{IsCycle, IsWalk, IsInner, keys, edges_of-key}
use greenmask.Subset.Component.Assign.{left, left-length}
use greenmask.Subset.Component.Search.{IsSort, Searched, Later, Later-refl, Later-trans}
use greenmask.Subset.Component.Found.{find_all_cycles_dfs_ok}

module _ (sort_edges : List Edge → List Edge) (sort_strings : List Bytes → List Bytes)
    (is_sort : IsSort sort_edges) (graph : List (ℕ × List Edge)) (inner : IsInner graph) where
  abbrev State : List ℕ → List ℕ → CycleSearch → Type 0
  State = Searched sort_edges sort_strings is_sort graph inner

  abbrev Step : CycleSearch → List ℕ → CycleSearch → List ℕ → Type 0
  Step = Later sort_edges sort_strings is_sort graph inner

  State-start :
      (s : CycleSearch)
      → s.cycles ≡ []
      → s.cycles_idents ≡ []
      → State [] [] (record s { visited = λ v. false; rec_stack = λ v. false })
  State-start s no_cycle no_ident = record {
    covered = λ u h. absurd (false_true h);
    visited = λ u h. elim h [ inl a ↦ absurd a | inr b ↦ absurd b ];
    on_stack = λ u h. absurd (false_true h);
    stacked = λ u h. absurd h;
    clear = inr (λ u e h edge. absurd h);
    distinct = tt;
    sound = λ c h. absurd (subst (λ cs. Elem c cs) no_cycle h);
    heard = inr no_ident;
  }
    where
      false_true : false ≡ true → ⊥
      false_true p = cc

  each_vertex_ok :
      (vs done : List ℕ) (s : CycleSearch)
      → State [] done s
      → ((v : ℕ) → Elem v vs → Elem v (keys graph))
      → left s.visited (keys graph) ≤ length graph
      → (t : CycleSearch) × (done' : List ℕ) × (each_vertex sort_edges sort_strings graph vs s
          ≡ ok (tt, t))
        × State [] done' t
        × Step s done t done'
        × ((v : ℕ) → Elem v vs → Elem v done')
  unfolding each_vertex
  each_vertex_ok [] done s good within few = (
    s,
    done,
    refl,
    good,
    Later-refl sort_edges sort_strings is_sort graph inner s done,
    λ v h. absurd h,
  )
  each_vertex_ok (v ∷ vs) done s good within few = elim (Bool-cases (s.visited v)) [
    | inl seen ↦
        let (t, done', run, good', later, all) =
          each_vertex_ok vs done s good (λ u h. within u (inr h)) few in
        (
          t,
          done',
          rw seen run,
          good',
          later,
          λ u h. elim h [
            | inl e ↦ later.kept u (rw e (in_done v (good.covered v seen)))
            | inr h' ↦ all u h'
          ],
        )
    | inr new ↦
        let (t, done', run, good', later, here) =
          find_all_cycles_dfs_ok sort_edges sort_strings is_sort graph inner (length graph) v [] []
            done s tt good (within v (inl refl)) new few in
        let (r, done'', run', good'', later', all) =
          each_vertex_ok vs done' t good' (λ u h. within u (inr h)) (omega (arith, later.fewer)) in
        (
          r,
          done'',
          rw (new, run) run',
          good'',
          Later-trans sort_edges sort_strings is_sort graph inner s t r done done' done'' later
              later',
          λ u h. elim h [ inl e ↦ later'.kept u (rw e here) | inr h' ↦ all u h' ],
        )
  ]
    where
      in_done : (u : ℕ) → Elem u done ⊎ Elem u [] → Elem u done
      in_done u (inl h) = h
      in_done u (inr h) = absurd h

  -- With no cycle recorded, a walk from a vertex leads back in the order in which the calls return.
  walk_before :
      (done : List ℕ)
      → IsDistinct done
      → ((u : ℕ) (e : Edge) → Elem u done → Elem e (edges_of graph u) → Before e.idx u done)
      → (x w : ℕ) (edges : List Edge) → Elem x done
      → IsWalk graph x edges w
      → (x ≡ w) ⊎ Before w x done
  walk_before done distinct before x w [] here walk = inl walk
  walk_before done distinct before x w (e ∷ edges) here (edge, walk) =
      let first = before x e here edge in
      elim (walk_before done distinct before e.idx w edges (Before-left e.idx x done first) walk) [
        | inl p ↦ inr (subst (λ k. Before k x done) p first)
        | inr rest ↦ inr (Before-trans w e.idx x done distinct rest first)
      ]

  no-IsCycle :
      (done : List ℕ)
      → IsDistinct done
      → ((u : ℕ) (e : Edge) → Elem u done → Elem e (edges_of graph u) → Before e.idx u done)
      → ((v : ℕ) → Elem v (keys graph) → Elem v done)
      → (c : List Edge) → ¬ IsCycle graph c
  no-IsCycle done distinct before all [] h = h
  no-IsCycle done distinct before all (e ∷ edges) (u, (edge, walk)) =
      let first = before u e (all u (edges_of-key graph u e edge)) edge in
      elim (walk_before done distinct before e.idx u edges (Before-left e.idx u done first) walk) [
        | inl p ↦
            let loop = subst (λ k. Before k u done) p first in
            Before-asym u u done distinct loop loop
        | inr rest ↦ Before-asym u e.idx done distinct rest first
      ]

-- The cycles that are recorded are cycles, and there is one if there is any cycle.
abbrev pub IsCycles : List (ℕ × List Edge) → List (List Edge) → Type 0
IsCycles graph cycles =
    ((c : List Edge) → Elem c cycles → IsCycle graph c)
    × (((c : List Edge) × Elem c cycles) ⊎ ((c : List Edge) → ¬ IsCycle graph c))

pub find_cycles-IsCycles :
    (sort_edges : List Edge → List Edge) (sort_strings : List Bytes → List Bytes)
    (graph : List (ℕ × List Edge)) (s : CycleSearch)
    → IsSort sort_edges
    → IsInner graph
    → s.cycles ≡ []
    → s.cycles_idents ≡ []
    → (t : CycleSearch) × (find_cycles sort_edges sort_strings graph (keys graph) s ≡ ok (tt, t))
      × IsCycles graph t.cycles
unfolding find_cycles
find_cycles-IsCycles sort_edges sort_strings graph s is_sort inner empty unheard =
    let (t, done, run, good, later, all) =
      each_vertex_ok sort_edges sort_strings is_sort graph inner (keys graph) [] _
        (State-start sort_edges sort_strings is_sort graph inner s empty unheard) (λ v h. h)
        (left-length (λ v. false) graph) in
    (
      t,
      run,
      (
        good.sound,
        elim good.clear [
          | inl found ↦ inl found
          | inr before ↦
              inr (
                no-IsCycle sort_edges sort_strings is_sort graph inner done good.distinct before
                  all)
        ],
      ),
    )
