-- ===== src/Subset/Condense/Vertexes.antt =====
-- The vertexes and the edges of one component in buildCondensedGraph of subset/graph.go.
use greenmask.Common.{
  ℕ, zero, suc, ◌+◌, ◌≡◌, inl, inr, refl, sym, ap, subst, Option, none, some, List, [], ◌∷◌, Bool,
  true, false, Bool-cases, if◌then◌else◌, ◌==◌, ==_iff, get_elem?, arith,
}
use greenmask.Subset.Reach.{Elem}
use greenmask.Subset.Types.{Edge}
use greenmask.Subset.Component.{edges_of}
use greenmask.Subset.Component.Cycles.{keys}
use greenmask.Subset.Build.Appends.{entries}
use greenmask.Subset.Condense.{contains, is_component, original_vertexes, inner_edges, edge_ids}

pub contains-Elem : (xs : List ℕ) (x : ℕ) → contains xs x ≡ true → Elem x xs
unfolding contains
contains-Elem [] x h = cc
contains-Elem (y ∷ ys) x h = elim (Bool-cases (y == x)) [
  | inl e ↦ inl (sym ((==_iff y x).0 e))
  | inr e ↦ inr (contains-Elem ys x (subst (λ b. (if b then true else contains ys x) ≡ true) e h))
]

pub Elem-contains : (xs : List ℕ) (x : ℕ) → Elem x xs → contains xs x ≡ true
unfolding contains
Elem-contains [] x h = absurd h
Elem-contains (y ∷ ys) x h = elim (Bool-cases (y == x)) [
  | inl e ↦ rw e refl
  | inr e ↦ elim h [
    | inl p ↦ rw ((==_iff y x).1 (sym p)) refl
    | inr h' ↦ rw e (Elem-contains ys x h')
  ]
]

is_component-some : (c : ℕ) (m : Option ℕ) → is_component c m ≡ true → m ≡ some c
unfolding is_component
is_component-some c none h = cc
is_component-some c (some d) h = ap some ((==_iff d c).0 h)

some_inj : (a b : ℕ) → some (some a) ≡ some (some b) → a ≡ b
some_inj a b e = cc

-- The vertexes of a component are those with its mark.
pub original_vertexes-mark :
    (c i : ℕ) (marks : List (Option ℕ)) (v : ℕ)
    → Elem v (original_vertexes c i marks)
    → (k : ℕ) × (v ≡ i + k) × (get_elem? marks k ≡ some (some c))
unfolding original_vertexes
original_vertexes-mark c i [] v h = absurd h
original_vertexes-mark c i (m ∷ marks) v h = pick (is_component c m) refl h (λ h'.
    let (k, p, at) = original_vertexes-mark c (suc i) marks v h' in (suc k, omega (arith, p), at))
  where
    pick :
        (b : Bool)
        → is_component c m ≡ b
        → Elem v
            (if b then i ∷ original_vertexes c (suc i) marks else original_vertexes c (suc i) marks)
        → (Elem v (original_vertexes c (suc i) marks)
            → (k : ℕ) × (v ≡ i + k) × (get_elem? (m ∷ marks) k ≡ some (some c)))
        → (k : ℕ) × (v ≡ i + k) × (get_elem? (m ∷ marks) k ≡ some (some c))
    pick true e (inl p) behind = (0, omega (arith, p), ap some (is_component-some c m e))
    pick true e (inr h) behind = behind h
    pick false e h behind = behind h

pub mark-original_vertexes :
    (c i : ℕ) (marks : List (Option ℕ)) (k : ℕ)
    → get_elem? marks k ≡ some (some c)
    → Elem (i + k) (original_vertexes c i marks)
unfolding original_vertexes is_component
mark-original_vertexes c i [] k at = cc
mark-original_vertexes c i (none ∷ marks) zero at = cc
mark-original_vertexes c i (some d ∷ marks) zero at = elim (Bool-cases (d == c)) [
  | inl e ↦ rw e (inl (omega arith))
  | inr e ↦ absurd (differ (some_inj d c at) e)
]
  where
    differ : d ≡ c → (d == c) ≡ false → ⊥
    differ p q = ground arith
mark-original_vertexes c i (m ∷ marks) (suc k) at =
    let next : suc i + k ≡ i + suc k = omega arith in
    let behind : Elem (i + suc k) (original_vertexes c (suc i) marks) =
      subst (λ j. Elem j (original_vertexes c (suc i) marks)) next
        (mark-original_vertexes c (suc i) marks k at) in
    elim (Bool-cases (is_component c m)) [ inl e ↦ rw e (inr behind) | inr e ↦ rw e behind ]

-- An inner edge is an edge that leads to one of the vertexes.
pub inner_edges-Elem :
    (vertexes : List ℕ) (edges : List Edge) (e : Edge)
    → Elem e (inner_edges vertexes edges)
    → Elem e edges × Elem e.to.idx vertexes
unfolding inner_edges
inner_edges-Elem vertexes [] e h = absurd h
inner_edges-Elem vertexes (d ∷ edges) e h =
    pick (contains vertexes d.to.idx) (contains-Elem vertexes d.to.idx) h
      (λ h'. let (m, n) = inner_edges-Elem vertexes edges e h' in (inr m, n))
  where
    pick :
        (b : Bool)
        → (b ≡ true → Elem d.to.idx vertexes)
        → Elem e (if b then d ∷ inner_edges vertexes edges else inner_edges vertexes edges)
        → (Elem e (inner_edges vertexes edges) → Elem e (d ∷ edges) × Elem e.to.idx vertexes)
        → Elem e (d ∷ edges) × Elem e.to.idx vertexes
    pick true inside (inl p) behind =
        (inl p, subst (λ x. Elem x.to.idx vertexes) (sym p) (inside refl))
    pick true inside (inr h') behind = behind h'
    pick false inside h' behind = behind h'

pub Elem-inner_edges :
    (vertexes : List ℕ) (edges : List Edge) (e : Edge)
    → Elem e edges
    → Elem e.to.idx vertexes
    → Elem e (inner_edges vertexes edges)
unfolding inner_edges
Elem-inner_edges vertexes [] e h inside = absurd h
Elem-inner_edges vertexes (d ∷ edges) e (inl p) inside =
    rw (Elem-contains vertexes d.to.idx (subst (λ x. Elem x.to.idx vertexes) p inside)) (inl p)
Elem-inner_edges vertexes (d ∷ edges) e (inr h) inside =
    elim (Bool-cases (contains vertexes d.to.idx)) [
      | inl q ↦ rw q (inr (Elem-inner_edges vertexes edges e h inside))
      | inr q ↦ rw q (Elem-inner_edges vertexes edges e h inside)
    ]

-- The graph of a component has the inner edges of its vertexes, and their identifiers are collected.
pub record IsComponentGraph (graph : List (List Edge)) (vertexes vs : List ℕ)
    (own : List (ℕ × List Edge)) : Type 0 where
  pub all_keys : keys own ≡ vs
  pub inside :
      (v : ℕ) (e : Edge)
      → Elem e (edges_of own v)
      → Elem e (entries graph v) × Elem e.to.idx vertexes
  pub collected :
      (v : ℕ) (e : Edge)
      → Elem v vs
      → Elem e (entries graph v)
      → Elem e.to.idx vertexes
      → Elem e (edges_of own v) × Elem e.id (edge_ids own)
  pub from_inside :
      (id : ℕ)
      → Elem id (edge_ids own)
      → (v : ℕ) × (e : Edge) × Elem v vs
        × Elem e (entries graph v)
        × Elem e.to.idx vertexes
        × (e.id ≡ id)
