-- ===== src/Subset/Scc/Marking.antt =====
-- The second loop of findScc: between two turns the marked vertices are whole components, each with
-- a number below the count.
use greenmask.Common.{
  ℕ, suc, ◌<◌, ◌≤◌, ◌≡◌, ◌⊎◌, inl, inr, refl, sym, ◌∙◌, some, List, [], ◌∷◌, ◌++◌, append_assoc,
  true, false, Bool-cases, ok, length, get_elem?, reverse, arith,
}
use greenmask.Subset.Reach.{
  Elem, Elem-right, Elem-append, Before, Before-asym, Before-right, Walk, stop, go, Walk-trans,
  Mutual,
}
use greenmask.Subset.Dfs.{Search}
use greenmask.Subset.Dfs.Marks.{is_seen, seen_lt, is_visited_ok, seen-found}
use greenmask.Subset.Dfs.PostOrder.{IsGraph, Good}
use greenmask.Subset.Dfs.Flood.{IsReversed, Closed, Floods, mark_component_dfs-Floods}
use greenmask.Subset.Scc.{mark_components}
use greenmask.Subset.Scc.Order.{seen_or_not}

pub Before-split : (x y : ℕ) (xs ys : List ℕ) → Elem x xs → Elem y ys → Before x y (xs ++ ys)
Before-split x y [] ys h g = absurd h
Before-split x y (z ∷ xs) ys (inl e) g = inl (e, Elem-right y xs ys g)
Before-split x y (z ∷ xs) ys (inr h) g = inr (Before-split x y xs ys h g)

some_inj : (a b : ℕ) → some (some a) ≡ some (some b) → a ≡ b
some_inj a b e = cc

module _ (graph reversed : List (List ℕ)) (is_graph : IsGraph graph)
    (back : IsReversed graph reversed) where
  -- All that leads to a marked vertex is marked.
  Closed-Walk :
      (bound component x u : ℕ) (s : Search)
      → Closed graph reversed is_graph back component bound [] s
      → is_seen s.visited x ≡ true
      → Walk graph x u
      → is_seen s.visited u ≡ true
  Closed-Walk bound component x u s good seen (stop e) = rw e seen
  Closed-Walk bound component x u s good seen (go {x = y} edge p) =
      elim (good.closed y u (Closed-Walk bound component x y s good seen p) (back.back u y edge)) [
        | inl h ↦ absurd h
        | inr h ↦ h
      ]

  -- `more` is the part of the order that the loop has passed.
  pub record Marked (more : List ℕ) (count : ℕ) (s : Search) : Type 0 where
    pub closed : Closed graph reversed is_graph back count (length graph) [] s
    pub passed : (u : ℕ) → Elem u more → is_seen s.visited u ≡ true
    pub numbered :
        (u : ℕ)
        → is_seen s.visited u ≡ true
        → (c : ℕ) × (get_elem? s.visited u ≡ some (some c)) × (c < count)
    pub together :
        (u w : ℕ)
        → is_seen s.visited u ≡ true
        → is_seen s.visited w ≡ true
        → Mutual graph u w
        → get_elem? s.visited u ≡ get_elem? s.visited w
    pub apart :
        (u w : ℕ)
        → is_seen s.visited u ≡ true
        → is_seen s.visited w ≡ true
        → get_elem? s.visited u ≡ get_elem? s.visited w
        → Mutual graph u w
    pub ordered :
        (u w c d : ℕ)
        → get_elem? s.visited u ≡ some (some c)
        → get_elem? s.visited w ≡ some (some d)
        → Walk graph w u
        → c ≤ d
    pub used :
        (c : ℕ) → c < count → (u : ℕ) × (u < length graph) × (get_elem? s.visited u ≡ some (some c))

  module _ (order rest more : List ℕ) (v count : ℕ) (s t : Search) (sorted : Search)
      (same : sorted.order ≡ order) (good : Good graph is_graph [] sorted)
      (split : order ≡ reverse rest ++ v ∷ more) (all : (u : ℕ) → u < length graph → Elem u order)
      (marked : Marked more count s) (new : is_seen s.visited v ≡ false)
      (closed : Closed graph reversed is_graph back count (length graph) [] t)
      (flood : Floods graph reversed is_graph back count v s t) where
    -- A vertex that the search reached is in the component of the vertex that it began at.
    met :
        (u x : ℕ)
        → is_seen s.visited u ≡ false
        → Walk graph v u
        → Mutual graph u x
        → (v ≡ x) ⊎ Before v x order
        → Mutual graph u v
    met u x left p m (inl e) = rw e m
    met u x left p m (inr b) =
        elim (Elem-append x (reverse rest) (v ∷ more) (rw (sym split) (Before-right v x order b))) [
          | inl h ↦ absurd (
              Before-asym v x order (rw (sym same) good.distinct) b
                (rw split (Before-split x v (reverse rest) (v ∷ more) h (inl refl))))
          | inr h ↦ elim h [
            | inl e ↦ rw (sym e) m
            | inr h' ↦ absurd (
                seen_or_not
                  (Closed-Walk (length graph) count x u s marked.closed (marked.passed x h') m.0)
                  left)
          ]
        ]

    whole :
        (u : ℕ) → u < length graph → is_seen s.visited u ≡ false → Walk graph v u → Mutual graph u v
    whole u small left p = elim (good.led u v (rw same (all u small)) p) [
      | inl (x, m, h, here) ↦ met u x left p m (rw (sym same) here)
      | inr (x, m, h) ↦ absurd h
    ]

    -- A vertex is as before, or new and of the component.
    Status : ℕ → Type 0
    Status u =
        ((is_seen s.visited u ≡ true) × (get_elem? t.visited u ≡ get_elem? s.visited u))
        ⊎ ((is_seen s.visited u ≡ false)
            × (get_elem? t.visited u ≡ some (some count))
            × Mutual graph u v)

    status : (u : ℕ) → is_seen t.visited u ≡ true → Status u
    unfolding Status
    status u seen = elim (Bool-cases (is_seen s.visited u)) [
      | inl e ↦ inl (e, flood.keeps u e)
      | inr e ↦ elim (flood.fresh u seen) [
        | inl e' ↦ absurd (seen_or_not e' e)
        | inr (m, p) ↦
            inr (e, m, whole u (omega (arith, seen_lt t.visited u seen, closed.size)) e p)
      ]
    ]

    -- A component is marked as a whole: an old vertex is in no component with a new one.
    strangers :
        (u w : ℕ) → is_seen s.visited u ≡ true → is_seen s.visited w ≡ false → Walk graph u w → ⊥
    strangers u w e e' p = seen_or_not (Closed-Walk (length graph) count u w s marked.closed e p) e'

    not_count : (u : ℕ) → is_seen s.visited u ≡ true → get_elem? s.visited u ≡ some (some count) → ⊥
    not_count u e g =
        let (c, h, lt) = marked.numbered u e in
        let eq : c ≡ count = some_inj c count (sym h ∙ g) in absurd (omega (arith, eq, lt))

    numbered_on :
        (u : ℕ) → Status u → (c : ℕ) × (get_elem? t.visited u ≡ some (some c)) × (c < suc count)
    unfolding Status
    numbered_on u (inl (e, g)) = let (c, h, lt) = marked.numbered u e in (c, g ∙ h, omega arith)
    numbered_on u (inr (e, g, m)) = (count, g, omega arith)

    together_on :
        (u w : ℕ)
        → Status u
        → Status w
        → Mutual graph u w
        → get_elem? t.visited u ≡ get_elem? t.visited w
    unfolding Status
    together_on u w (inl (e, g)) (inl (e', g')) m = g ∙ marked.together u w e e' m ∙ sym g'
    together_on u w (inl (e, g)) (inr (e', g', n)) m = absurd (strangers u w e e' m.1)
    together_on u w (inr (e, g, n)) (inl (e', g')) m = absurd (strangers w u e' e m.0)
    together_on u w (inr (e, g, n)) (inr (e', g', n')) m = g ∙ sym g'

    apart_on :
        (u w : ℕ)
        → Status u
        → Status w
        → get_elem? t.visited u ≡ get_elem? t.visited w
        → Mutual graph u w
    unfolding Status
    apart_on u w (inl (e, g)) (inl (e', g')) eq = marked.apart u w e e' (sym g ∙ eq ∙ g')
    apart_on u w (inl (e, g)) (inr (e', g', n)) eq = absurd (not_count u e (sym g ∙ eq ∙ g'))
    apart_on u w (inr (e, g, n)) (inl (e', g')) eq = absurd (not_count w e' (sym g' ∙ sym eq ∙ g))
    apart_on u w (inr (e, g, n)) (inr (e', g', n')) eq = (Walk-trans n.0 n'.1, Walk-trans n'.0 n.1)

    ordered_on :
        (u w c d : ℕ)
        → Status u
        → Status w
        → get_elem? t.visited u ≡ some (some c)
        → get_elem? t.visited w ≡ some (some d)
        → Walk graph w u
        → c ≤ d
    unfolding Status
    ordered_on u w c d (inl (e, g)) (inl (e', g')) h h' p =
        marked.ordered u w c d (sym g ∙ h) (sym g' ∙ h') p
    ordered_on u w c d (inl (e, g)) (inr (e', g', n)) h h' p =
        let (b, k, lt) = marked.numbered u e in
        let eq : c ≡ b = some_inj c b (sym h ∙ g ∙ k) in
        let eq' : d ≡ count = some_inj d count (sym h' ∙ g') in omega (arith, eq, eq', lt)
    ordered_on u w c d (inr (e, g, n)) (inl (e', g')) h h' p = absurd (strangers w u e' e p)
    ordered_on u w c d (inr (e, g, n)) (inr (e', g', n')) h h' p =
        let eq : c ≡ d = some_inj c d (sym h ∙ g ∙ sym g' ∙ h') in omega (arith, eq)

    used_on :
        (c : ℕ)
        → c < suc count
        → is_seen t.visited v ≡ true
        → v < length graph
        → (u : ℕ) × (u < length graph) × (get_elem? t.visited u ≡ some (some c))
    unfolding Status
    used_on c lt seen small = elim (below_or_same c lt) [
      | inl e ↦ elim (status v seen) [
        | inl (e', g) ↦ absurd (seen_or_not e' new)
        | inr (e', g, m) ↦ (v, small, rw e g)
      ]
      | inr lt' ↦
          let (u, small', g) = marked.used c lt' in (u, small', flood.keeps u (found u c g) ∙ g)
    ]
      where
        below_or_same : (c : ℕ) → c < suc count → (c ≡ count) ⊎ (c < count)
        below_or_same c lt = ground arith

        found : (u c : ℕ) → get_elem? s.visited u ≡ some (some c) → is_seen s.visited u ≡ true
        found u c g = seen-found s.visited u c g

    Marked-on : is_seen t.visited v ≡ true → v < length graph → Marked (v ∷ more) (suc count) t
    Marked-on seen small = record {
      closed = record { size = closed.size; closed = closed.closed; few = closed.few };
      passed = λ u h. elim h [ inl e ↦ rw e seen | inr h' ↦ flood.stays u (marked.passed u h') ];
      numbered = λ u e. numbered_on u (status u e);
      together = λ u w e e' m. together_on u w (status u e) (status w e') m;
      apart = λ u w e e' eq. apart_on u w (status u e) (status w e') eq;
      ordered = λ u w c d h h' p.
          ordered_on u w c d (status u (seen-found t.visited u c h))
            (status w (seen-found t.visited w d h')) h h' p;
      used = λ c lt. used_on c lt seen small;
    }

  Marked-pass :
      (v count : ℕ) (more : List ℕ) (s : Search)
      → Marked more count s
      → is_seen s.visited v ≡ true
      → Marked (v ∷ more) count s
  Marked-pass v count more s marked seen = record {
    closed = marked.closed;
    passed = λ u h. elim h [ inl e ↦ rw e seen | inr h' ↦ marked.passed u h' ];
    numbered = marked.numbered;
    together = marked.together;
    apart = marked.apart;
    ordered = marked.ordered;
    used = marked.used;
  }

  pub mark_components_ok :
      (rest more : List ℕ) (count : ℕ) (s sorted : Search)
      → Good graph is_graph [] sorted
      → sorted.order ≡ reverse rest ++ more
      → ((u : ℕ) → u < length graph → Elem u sorted.order)
      → ((u : ℕ) → Elem u sorted.order → u < length graph)
      → Marked more count s
      → (n : ℕ) × (t : Search) × (mark_components reversed rest count s ≡ ok (n, t))
        × Marked sorted.order n t
  unfolding mark_components
  mark_components_ok [] more count s sorted good split all within marked =
      (count, s, refl, rw split marked)
  mark_components_ok (v ∷ rest) more count s sorted good split all within marked =
      let split' : sorted.order ≡ reverse rest ++ v ∷ more =
        split ∙ append_assoc (reverse rest) (v ∷ []) more in
      let small : v < length graph =
        within v (rw split' (Elem-right v (reverse rest) (v ∷ more) (inl refl))) in
      let in_range : v < length s.visited = omega (arith, small, marked.closed.size) in
      elim (Bool-cases (is_seen s.visited v)) [
        | inl e ↦
            let (n, t, run, done) =
              mark_components_ok rest (v ∷ more) count s sorted good split' all within
                (Marked-pass v count more s marked e) in
            (n, t, rw (is_visited_ok v s in_range, e) run, done)
        | inr e ↦
            let (r, run, closed, flood, seen) =
              mark_component_dfs-Floods graph reversed is_graph back count (length graph) v [] s
                marked.closed small e in
            let (n, t, run', done) =
              mark_components_ok rest (v ∷ more) (suc count) r sorted good split' all within (
                Marked-on sorted.order rest more v count s r sorted refl good split' all marked e
                  closed flood seen small) in
            (n, t, rw (is_visited_ok v s in_range, e, back.same_length, run) run', done)
      ]
