-- ===== src/Subset/Sorted/Oids.antt =====
-- The tables of the components in GetSortedTablesAndDependenciesGraph of subset/graph.go.
use greenmask.Common.{
  ℕ, ◌+◌, ◌<◌, ◌≡◌, inl, inr, refl, sym, ap, subst, ◌∙◌, some, List, [], ◌∷◌, ◌++◌, map, get_elem?,
  reverse, ok, arith,
}
use greenmask.Subset.Reach.{Elem, Elem-left, Elem-right, Before, Before-append, Before-snoc}
use greenmask.Subset.Types.{Table}
use greenmask.Subset.Component.{Component}
use greenmask.Subset.Component.Cycles.{keys}
use greenmask.Subset.Condense.{Graph, original_vertexes}
use greenmask.Subset.Condense.OwnGraph.{Elem-map}
use greenmask.Subset.Condense.Vertexes.{original_vertexes-mark, mark-original_vertexes}
use greenmask.Subset.Condense.Components.{IsTables, IsComponent}
use greenmask.Subset.Condense.Condensed.{IsNewGraph}
use greenmask.Subset.Sorted.{component_oids, collect_tables}

pub Elem-reverse : (x : ℕ) (xs : List ℕ) → Elem x xs → Elem x (reverse xs)
Elem-reverse x [] h = h
Elem-reverse x (y ∷ xs) (inl e) = Elem-right x (reverse xs) (y ∷ []) (inl e)
Elem-reverse x (y ∷ xs) (inr h) = Elem-left x (reverse xs) (y ∷ []) (Elem-reverse x xs h)

pub Before-reverse : (x y : ℕ) (xs : List ℕ) → Before x y xs → Before y x (reverse xs)
Before-reverse x y [] h = h
Before-reverse x y (z ∷ xs) (inl (e, h)) = rw e (Before-snoc y z (reverse xs) (Elem-reverse y xs h))
Before-reverse x y (z ∷ xs) (inr h) =
    Before-append y x (reverse xs) (z ∷ []) (Before-reverse x y xs h)

Before-both : (x y : ℕ) (xs ys : List ℕ) → Elem x xs → Elem y ys → Before x y (xs ++ ys)
Before-both x y [] ys h g = absurd h
Before-both x y (z ∷ xs) ys (inl e) g = inl (e, Elem-right y xs ys g)
Before-both x y (z ∷ xs) ys (inr h) g = inr (Before-both x y xs ys h g)

Before-behind : (x y : ℕ) (xs ys : List ℕ) → Before x y ys → Before x y (xs ++ ys)
Before-behind x y [] ys h = h
Before-behind x y (z ∷ xs) ys h = inr (Before-behind x y xs ys h)

-- A range over a map goes over all entries and no others.
pub record IsRange (range : List (ℕ × Table) → List (ℕ × Table)) : Type 0 where
  pub all : (entry : ℕ × Table) (own : List (ℕ × Table)) → Elem entry own → Elem entry (range own)
  pub only : (entry : ℕ × Table) (own : List (ℕ × Table)) → Elem entry (range own) → Elem entry own

map-back :
    {A : Type 0} (f : A → ℕ) (n : ℕ) (xs : List A)
    → Elem n (map f xs)
    → (x : A) × Elem x xs × (f x ≡ n)
map-back f n [] h = absurd h
map-back f n (y ∷ ys) (inl p) = (y, inl refl, sym p)
map-back f n (y ∷ ys) (inr h) = let (x, m, p) = map-back f n ys h in (x, inr m, p)

-- The entry of a key has its table.
table_entry :
    (tables : List Table) (own : List (ℕ × Table)) (v : ℕ) (t : Table)
    → IsTables tables own
    → get_elem? tables v ≡ some t
    → Elem v (keys own)
    → Elem (v, t) own
table_entry tables [] v t good at h = h
table_entry tables ((u, a) ∷ own) v t (at', good) at (inl e) =
    inl (pair v u t a e (some_eq t a (sym at ∙ ap (λ k. get_elem? tables k) e ∙ at')))
  where
    some_eq : (x y : Table) → some x ≡ some y → x ≡ y
    some_eq x y e = cc

    pair : (v u : ℕ) (t a : Table) → v ≡ u → t ≡ a → ◌≡◌ {A = ℕ × Table} (v, t) (u, a)
    pair v u t a p q = rw (p, q) refl
table_entry tables ((u, a) ∷ own) v t (at', good) at (inr h) =
    inr (table_entry tables own v t good at h)

entry_table :
    (tables : List Table) (own : List (ℕ × Table)) (entry : ℕ × Table)
    → IsTables tables own
    → Elem entry own
    → (get_elem? tables entry.0 ≡ some entry.1) × Elem entry.0 (keys own)
entry_table tables [] entry good h = absurd h
entry_table tables ((u, a) ∷ own) entry (at, good) (inl e) =
    subst (λ x. (get_elem? tables x.0 ≡ some x.1) × Elem x.0 (u ∷ keys own)) (sym e) (at, inl refl)
entry_table tables ((u, a) ∷ own) entry (at, good) (inr h) =
    let (at', m) = entry_table tables own entry good h in (at', inr m)

module _ (range : List (ℕ × Table) → List (ℕ × Table)) (is_range : IsRange range) where
  module _ (tables : List Table) (g : Graph) (good : IsNewGraph tables g) where
    -- The tables of a component are those of the vertices with its number.
    pub oid_of_vertex :
        (c v : ℕ) (comp : Component) (t : Table)
        → IsComponent tables g.links.graph g.marks c comp
        → get_elem? g.marks v ≡ some (some c)
        → get_elem? tables v ≡ some t
        → Elem t.oid (component_oids range comp)
    unfolding component_oids
    oid_of_vertex c v comp t is_comp at at' =
        let q : 0 + v ≡ v = omega arith in
        let vertex : Elem v (keys comp.tables) =
          subst (λ ks. Elem v ks) (sym is_comp.own_tables)
            (subst (λ k. Elem k (original_vertexes c 0 g.marks)) q
              (mark-original_vertexes c 0 g.marks v at)) in
        Elem-map (λ entry. entry.1.oid) (v, t) (range comp.tables)
          (is_range.all (v, t) comp.tables
            (table_entry tables comp.tables v t is_comp.tabled at' vertex))

    pub vertex_of_oid :
        (c : ℕ) (comp : Component) (o : ℕ)
        → IsComponent tables g.links.graph g.marks c comp
        → Elem o (component_oids range comp)
        → (v : ℕ) × (t : Table) × (get_elem? tables v ≡ some t)
          × (t.oid ≡ o)
          × (get_elem? g.marks v ≡ some (some c))
    unfolding component_oids
    vertex_of_oid c comp o is_comp h =
        let ((v, t), m, p) = map-back (λ entry. entry.1.oid) o (range comp.tables) h in
        let (at, key) =
          entry_table tables comp.tables (v, t) is_comp.tabled
            (is_range.only (v, t) comp.tables m) in
        let (k, e, mark) =
          original_vertexes-mark c 0 g.marks v (subst (λ ks. Elem v ks) is_comp.own_tables key) in
        let q : k ≡ v = omega (arith, e) in
        (v, t, at, p, subst (λ j. get_elem? g.marks j ≡ some (some c)) q mark)

    pub collect_tables_ok :
        (order : List ℕ)
        → ((c : ℕ) → Elem c order → c < g.scc_count)
        → (ts : List ℕ) × (collect_tables range g.scc order ≡ ok ts)
          × ((c : ℕ) (comp : Component) (o : ℕ)
              → Elem c order
              → get_elem? g.scc c ≡ some comp
              → Elem o (component_oids range comp)
              → Elem o ts)
          × ((c d : ℕ) (a b : Component) (o p : ℕ)
              → Before c d order
              → get_elem? g.scc c ≡ some a
              → get_elem? g.scc d ≡ some b
              → Elem o (component_oids range a)
              → Elem p (component_oids range b)
              → Before o p ts)
    unfolding collect_tables
    collect_tables_ok [] within = ([], refl, (λ c comp o h. absurd h), λ c d a b o p h. absurd h)
    collect_tables_ok (idx ∷ order) within =
        let (comp, at, is_comp) = good.each idx (within idx (inl refl)) in
        let (ts, run, all, before) = collect_tables_ok order (λ c h. within c (inr h)) in
        (
          component_oids range comp ++ ts,
          rw (collect_tables, at, run) refl,
          (λ c a o h at' m. elim h [
            | inl e ↦ Elem-left o (component_oids range comp) ts (the_oids comp at o a c e at' m)
            | inr h' ↦ Elem-right o (component_oids range comp) ts (all c a o h' at' m)
          ]),
          λ c d a b o p h at' at'' m n. elim h [
            | inl (e, h') ↦
                Before-both o p (component_oids range comp) ts (the_oids comp at o a c e at' m)
                  (all d b p h' at'' n)
            | inr h' ↦
                Before-behind o p (component_oids range comp) ts
                  (before c d a b o p h' at' at'' m n)
          ],
        )
      where
        some_eq : (x y : Component) → some x ≡ some y → x ≡ y
        some_eq x y e = cc

        the_oids :
            (comp : Component)
            → get_elem? g.scc idx ≡ some comp
            → (o : ℕ) (a : Component) (c : ℕ) → c ≡ idx
            → get_elem? g.scc c ≡ some a
            → Elem o (component_oids range a)
            → Elem o (component_oids range comp)
        the_oids comp at o a c e at' m =
            subst (λ x. Elem o (component_oids range x))
              (some_eq a comp (sym at' ∙ ap (λ k. get_elem? g.scc k) e ∙ at)) m
