-- ===== src/Subset/Scc/Order.antt =====
-- The order of the first loop of findScc, and lists in reverse.
use greenmask.Common.{
  ℕ, zero, suc, ◌+◌, ◌<◌, ◌≤◌, ◌≡◌, ◌⊎◌, inl, inr, refl, sym, ap, ◌∙◌, Option, List, [], ◌∷◌, Bool,
  true, false, ok, length, arith,
}
use greenmask.Subset.Reach.{Elem}
use greenmask.Subset.Dfs.{Search}
use greenmask.Subset.Dfs.Marks.{is_seen, unseen}
use greenmask.Subset.Dfs.PostOrder.{IsGraph, Good, each-Visits, topological_sort_dfs-Visits}
use greenmask.Subset.Scc.{range_from, erase_visited, sort_vertices}

pub range_from-holds : (n i w : ℕ) → i ≤ w → w < i + n → Elem w (range_from n i)
unfolding range_from
range_from-holds zero i w low high = absurd (omega arith)
range_from-holds (suc n) i w low high = elim (eq_or_lt i w low) [
  | inl e ↦ inl (sym e)
  | inr lt ↦ inr (range_from-holds n (suc i) w lt (omega arith))
]
  where
    eq_or_lt : (i w : ℕ) → i ≤ w → (i ≡ w) ⊎ (suc i ≤ w)
    eq_or_lt i w low = ground arith

pub range_from-within : (n i w : ℕ) → Elem w (range_from n i) → w < i + n
unfolding range_from
range_from-within zero i w h = absurd h
range_from-within (suc n) i w (inl e) = omega arith
range_from-within (suc n) i w (inr h) = omega (arith, range_from-within n (suc i) w h)

pub length-erase_visited : (marks : List (Option ℕ)) → length (erase_visited marks) ≡ length marks
unfolding erase_visited
length-erase_visited [] = refl
length-erase_visited (m ∷ marks) = ap suc (length-erase_visited marks)

pub seen-erase_visited : (marks : List (Option ℕ)) (v : ℕ) → is_seen (erase_visited marks) v ≡ false
unfolding erase_visited
seen-erase_visited [] v = refl
seen-erase_visited (m ∷ marks) zero = refl
seen-erase_visited (m ∷ marks) (suc v) = seen-erase_visited marks v

pub unseen-erase_visited : (marks : List (Option ℕ)) → unseen (erase_visited marks) ≡ length marks
unfolding erase_visited
unseen-erase_visited [] = refl
unseen-erase_visited (m ∷ marks) = ap suc (unseen-erase_visited marks)

-- Not both.
pub seen_or_not : {b : Bool} → b ≡ true → b ≡ false → ⊥
seen_or_not e e' = cc

module _ (graph : List (List ℕ)) (is_graph : IsGraph graph) where
  abbrev pub start : Search → Search
  start s = record { visited = erase_visited s.visited; order = [] }

  Good-start : (s : Search) → length s.visited ≡ length graph → Good graph is_graph [] (start s)
  Good-start s size = record {
    size = length-erase_visited s.visited ∙ size;
    covered = λ u h. absurd (seen_or_not h (seen-erase_visited s.visited u));
    pushed = λ u h. absurd h;
    waiting = λ u h. absurd h;
    closed = λ u w h e. absurd h;
    led = λ u w h p. absurd h;
    distinct = tt;
  }

  -- The first loop ends with all vertices in the order.
  pub sort_vertices_ok :
      (s : Search)
      → length s.visited ≡ length graph
      → (t : Search) × (sort_vertices graph (start s) ≡ ok (tt, t))
        × Good graph is_graph [] t
        × ((u : ℕ) → u < length graph → Elem u t.order)
  unfolding sort_vertices
  sort_vertices_ok s size =
      let (t, run, good, grow, all) =
        each-Visits graph is_graph (length graph) _
          (topological_sort_dfs-Visits graph is_graph (length graph)) []
          (range_from (length graph) 0) (start s) (Good-start s size)
          (λ w h. omega (arith, range_from-within (length graph) 0 w h)) (λ w h x e. absurd e)
          (omega (arith, unseen-erase_visited s.visited)) in
      (
        t,
        run,
        good,
        λ u small.
            elim (good.covered u
              (all u (range_from-holds (length graph) 0 u (omega arith) (omega arith)))) [
                | inl h ↦ h
                | inr h ↦ absurd h
              ],
      )
