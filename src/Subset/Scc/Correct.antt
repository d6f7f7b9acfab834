-- ===== src/Subset/Scc/Correct.antt =====
-- findScc numbers the strongly connected components of the graph.
use greenmask.Common.{
  ℕ, ◌<◌, ◌≤◌, ◌≡◌, sym, ◌∙◌, Option, some, List, [], append-nil, reverse, reverse-reverse, ok,
  length, get_elem?, arith,
}
use greenmask.Subset.Reach.{Elem, Walk, Mutual}
use greenmask.Subset.Dfs.{Search}
use greenmask.Subset.Dfs.Marks.{seen_lt, seen-found}
use greenmask.Subset.Dfs.PostOrder.{IsGraph}
use greenmask.Subset.Dfs.Flood.{IsReversed}
use greenmask.Subset.Scc.{erase_visited, find_scc}
use greenmask.Subset.Scc.Order.{
  length-erase_visited, seen-erase_visited, unseen-erase_visited, seen_or_not, sort_vertices_ok,
}
use greenmask.Subset.Scc.Marking.{Marked, mark_components_ok}

-- `marks` gives each vertex of the graph the number of its component.
pub record IsComponents (graph : List (List ℕ)) (count : ℕ) (marks : List (Option ℕ)) : Type 0 where
  pub size : length marks ≡ length graph
  -- Each vertex has a number below the count,
  pub numbered :
      (u : ℕ) → u < length graph → (c : ℕ) × (get_elem? marks u ≡ some (some c)) × (c < count)
  -- each number below the count is that of a vertex,
  pub used :
      (c : ℕ) → c < count → (u : ℕ) × (u < length graph) × (get_elem? marks u ≡ some (some c))
  -- two vertices have the same number exactly when each reaches the other,
  pub together :
      (u w : ℕ)
      → u < length graph
      → w < length graph
      → Mutual graph u w
      → get_elem? marks u ≡ get_elem? marks w
  pub apart :
      (u w : ℕ)
      → u < length graph
      → w < length graph
      → get_elem? marks u ≡ get_elem? marks w
      → Mutual graph u w
  -- and a walk never leads to a smaller number.
  pub ordered :
      (u w c d : ℕ)
      → get_elem? marks u ≡ some (some c)
      → get_elem? marks w ≡ some (some d)
      → Walk graph w u
      → c ≤ d

module _ (graph reversed : List (List ℕ)) (is_graph : IsGraph graph)
    (back : IsReversed graph reversed) where
  abbrev turned : Search → Search
  turned t = record { visited = erase_visited t.visited; order = reverse t.order }

  Marked-start :
      (t : Search)
      → length t.visited ≡ length graph
      → Marked graph reversed is_graph back [] 0 (turned t)
  Marked-start t size = record {
    closed = record {
      size = length-erase_visited t.visited ∙ size;
      closed = λ y z h e. absurd (seen_or_not h (seen-erase_visited t.visited y));
      few = omega (arith, unseen-erase_visited t.visited, size);
    };
    passed = λ u h. absurd h;
    numbered = λ u h. absurd (seen_or_not h (seen-erase_visited t.visited u));
    together = λ u w h. absurd (seen_or_not h (seen-erase_visited t.visited u));
    apart = λ u w h. absurd (seen_or_not h (seen-erase_visited t.visited u));
    ordered = λ u w c d h.
        absurd (
          seen_or_not (seen-found (erase_visited t.visited) u c h)
            (seen-erase_visited t.visited u));
    used = λ c lt. absurd (omega arith);
  }

  IsComponents-Marked :
      (order : List ℕ) (n : ℕ) (t : Search)
      → ((u : ℕ) → u < length graph → Elem u order)
      → Marked graph reversed is_graph back order n t
      → IsComponents graph n t.visited
  IsComponents-Marked order n t all done = record {
    size = done.closed.size;
    numbered = λ u lt. done.numbered u (done.passed u (all u lt));
    used = done.used;
    together =
        λ u w lt lt' m. done.together u w (done.passed u (all u lt)) (done.passed w (all w lt')) m;
    apart = λ u w lt lt' e. done.apart u w (done.passed u (all u lt)) (done.passed w (all w lt')) e;
    ordered = done.ordered;
  }

  -- For a graph whose edges lead to vertices, its reversed graph, and as many marks as vertices,
  -- findScc ends without a panic. Each vertex then has a number below the returned count, each such
  -- number is used, two vertices have the same number exactly when each reaches the other, and no
  -- walk leads to a smaller number.
  pub find_scc-IsComponents :
      (s : Search)
      → length s.visited ≡ length graph
      → (n : ℕ) × (t : Search) × (find_scc graph reversed s ≡ ok (n, t))
        × IsComponents graph n t.visited
  unfolding find_scc
  find_scc-IsComponents s size =
      let (t, run, good, all) = sort_vertices_ok graph is_graph s size in
      let (n, r, run', done) =
        mark_components_ok graph reversed is_graph back (reverse t.order) [] 0 (turned t) t good
          (sym (reverse-reverse t.order) ∙ sym (append-nil (reverse (reverse t.order)))) all
          (λ u h. omega (arith, seen_lt t.visited u (good.pushed u h), good.size))
          (Marked-start t good.size) in
      (n, r, rw run run', IsComponents-Marked t.order n r all done)
