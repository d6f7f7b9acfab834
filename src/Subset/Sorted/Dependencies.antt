-- ===== src/Subset/Sorted/Dependencies.antt =====
-- The map of the dependencies in GetSortedTablesAndDependenciesGraph of subset/graph.go: what is
-- appended to it is not reset afterwards.
use greenmask.Common.{
  ℕ, suc, ◌+◌, ◌<◌, ◌≤◌, ◌≡◌, ◌⊎◌, inl, inr, refl, sym, ap, subst, ◌∙◌, none, some, List, [], ◌∷◌,
  ◌++◌, Bool-cases, ◌==◌, ==_iff, length, get_elem?, ok, arith,
}
use greenmask.Subset.Reach.{Elem, Elem-left, Elem-right}
use greenmask.Subset.Types.{Table}
use greenmask.Subset.Component.{Component}
use greenmask.Subset.Build.Appends.{entries}
use greenmask.Subset.Condense.{CondensedEdge}
use greenmask.Subset.Condense.OwnGraph.{get-some}
use greenmask.Subset.Sorted.{
  Dependencies, reset, append_dependency, component_oids, reset_all, append_all, append_tables,
  add_edges, build_dependencies,
}

-- `dst` is in the list of `src`.
abbrev pub Has : Dependencies → ℕ → ℕ → Type 0
Has m src dst = (xs : List ℕ) × (m src ≡ some xs) × Elem dst xs

append_dependency-Has : (src dst : ℕ) (m : Dependencies) → Has (append_dependency src dst m) src dst
unfolding append_dependency
append_dependency-Has src dst m = (
  _,
  rw ((==_iff src src).1 refl) refl,
  Elem-right dst (elim (m src) [ none ↦ [] | some xs ↦ xs ]) (dst ∷ []) (inl refl),
)

append_dependency-keeps :
    (oid new src dst : ℕ) (m : Dependencies)
    → Has m src dst
    → Has (append_dependency oid new m) src dst
unfolding append_dependency
append_dependency-keeps oid new src dst m (xs, at, h) = elim (Bool-cases (oid == src)) [
  | inl e ↦
      let same : oid ≡ src = (==_iff oid src).0 e in
      (
        xs ++ new ∷ [],
        rw (append_dependency, e, ap m same ∙ at) refl,
        Elem-left dst xs (new ∷ []) h,
      )
  | inr e ↦ (xs, rw (append_dependency, e) at, h)
]

reset-keeps :
    (oid src dst : ℕ) (m : Dependencies)
    → (oid ≡ src → ⊥)
    → Has m src dst
    → Has (reset oid m) src dst
unfolding reset
reset-keeps oid src dst m ne (xs, at, h) = elim (Bool-cases (oid == src)) [
  | inl e ↦ absurd (ne ((==_iff oid src).0 e))
  | inr e ↦ (xs, rw (reset, e) at, h)
]

module _ (range : List (ℕ × Table) → List (ℕ × Table)) where
  abbrev oids : Component → List ℕ
  oids = component_oids range

  reset_all-keeps :
      (os : List ℕ) (src dst : ℕ) (m : Dependencies)
      → ((o : ℕ) → Elem o os → o ≡ src → ⊥)
      → Has m src dst
      → Has (reset_all range os m) src dst
  unfolding reset_all
  reset_all-keeps [] src dst m apart h = h
  reset_all-keeps (o ∷ os) src dst m apart h =
      reset_all-keeps os src dst (reset o m) (λ p e. apart p (inr e))
        (reset-keeps o src dst m (apart o (inl refl)) h)

  append_all-keeps :
      (o : ℕ) (dsts : List ℕ) (src dst : ℕ) (m : Dependencies)
      → Has m src dst
      → Has (append_all range o dsts m) src dst
  unfolding append_all
  append_all-keeps o [] src dst m h = h
  append_all-keeps o (d ∷ dsts) src dst m h =
      append_all-keeps o dsts src dst (append_dependency o d m)
        (append_dependency-keeps o d src dst m h)

  append_all-Has :
      (src : ℕ) (dsts : List ℕ) (dst : ℕ) (m : Dependencies)
      → Elem dst dsts
      → Has (append_all range src dsts m) src dst
  unfolding append_all
  append_all-Has src [] dst m h = absurd h
  append_all-Has src (d ∷ dsts) dst m (inl e) =
      append_all-keeps src dsts src dst (append_dependency src d m)
        (subst (λ k. Has (append_dependency src k m) src dst) e (append_dependency-Has src dst m))
  append_all-Has src (d ∷ dsts) dst m (inr h) =
      append_all-Has src dsts dst (append_dependency src d m) h

  append_tables-keeps :
      (srcs dsts : List ℕ) (src dst : ℕ) (m : Dependencies)
      → Has m src dst
      → Has (append_tables range srcs dsts m) src dst
  unfolding append_tables
  append_tables-keeps [] dsts src dst m h = h
  append_tables-keeps (s ∷ srcs) dsts src dst m h =
      append_tables-keeps srcs dsts src dst (append_all range s dsts m)
        (append_all-keeps s dsts src dst m h)

  append_tables-Has :
      (srcs dsts : List ℕ) (src dst : ℕ) (m : Dependencies)
      → Elem src srcs
      → Elem dst dsts
      → Has (append_tables range srcs dsts m) src dst
  unfolding append_tables
  append_tables-Has [] dsts src dst m h g = absurd h
  append_tables-Has (s ∷ srcs) dsts src dst m (inl e) g =
      append_tables-keeps srcs dsts src dst (append_all range s dsts m)
        (subst (λ k. Has (append_all range k dsts m) src dst) e (append_all-Has src dsts dst m g))
  append_tables-Has (s ∷ srcs) dsts src dst m (inr h) g =
      append_tables-Has srcs dsts src dst (append_all range s dsts m) h g

  add_edges-keeps :
      (edges : List CondensedEdge) (src dst : ℕ) (m : Dependencies)
      → Has m src dst
      → Has (add_edges range edges m) src dst
  unfolding add_edges
  add_edges-keeps [] src dst m h = h
  add_edges-keeps (e ∷ edges) src dst m h =
      add_edges-keeps edges src dst _
        (append_tables-keeps (oids e.to.component) (oids e.from.component) src dst m h)

  add_edges-Has :
      (edges : List CondensedEdge) (x : CondensedEdge) (src dst : ℕ) (m : Dependencies)
      → Elem x edges
      → Elem src (oids x.to.component)
      → Elem dst (oids x.from.component)
      → Has (add_edges range edges m) src dst
  unfolding add_edges
  add_edges-Has [] x src dst m h p q = absurd h
  add_edges-Has (e ∷ edges) x src dst m (inl same) p q = add_edges-keeps edges src dst _ (
      append_tables-Has (oids e.to.component) (oids e.from.component) src dst m
        (subst (λ y. Elem src (oids y.to.component)) same p)
        (subst (λ y. Elem dst (oids y.from.component)) same q))
  add_edges-Has (e ∷ edges) x src dst m (inr h) p q = add_edges-Has edges x src dst _ h p q

  -- Components whose numbers differ have no table in common.
  module _ (scc : List Component) (reversed : List (List CondensedEdge))
      (size : length reversed ≤ length scc)
      (down : (d : ℕ) (x : CondensedEdge) → Elem x (entries reversed d) → x.to.idx < d)
      (owned : (d : ℕ) (x : CondensedEdge)
        → Elem x (entries reversed d)
        → get_elem? scc x.to.idx ≡ some x.to.component)
      (apart : (c d : ℕ) (a b : Component) (o : ℕ)
        → get_elem? scc c ≡ some a
        → get_elem? scc d ≡ some b
        → Elem o (oids a)
        → Elem o (oids b)
        → c ≡ d) where
    -- All edges at the components below `idx` are in the map.
    abbrev pub Built : ℕ → Dependencies → Type 0
    Built idx m =
        (d : ℕ) (x : CondensedEdge) (src dst : ℕ)
        → d < idx
        → Elem x (entries reversed d)
        → Elem src (oids x.to.component)
        → Elem dst (oids x.from.component)
        → Has m src dst

    Built-next :
        (idx : ℕ) (edges : List CondensedEdge) (c : Component) (m : Dependencies)
        → entries reversed idx ≡ edges
        → get_elem? scc idx ≡ some c
        → Built idx m
        → Built (suc idx) (add_edges range edges (reset_all range (oids c) m))
    Built-next idx edges c m same at built d x src dst lt h p q = elim (same_or_below d lt) [
      | inl e ↦
          add_edges-Has edges x src dst _
            (subst (λ es. Elem x es) same (subst (λ k. Elem x (entries reversed k)) e h)) p q
      | inr lt' ↦ add_edges-keeps edges src dst _ (
          reset_all-keeps (oids c) src dst m
            (λ o g e.
              let clash : idx ≡ x.to.idx =
                apart idx x.to.idx c x.to.component o at (owned d x h) g
                  (subst (λ k. Elem k (oids x.to.component)) (sym e) p) in
              omega (arith, clash, down d x h, lt'))
            (built d x src dst lt' h p q))
    ]
      where
        same_or_below : (d : ℕ) → d < suc idx → (d ≡ idx) ⊎ (d < idx)
        same_or_below d lt = ground arith

    pub build_dependencies-Built :
        (idx : ℕ) (rest : List (List CondensedEdge)) (m : Dependencies)
        → idx + length rest ≡ length reversed
        → ((k : ℕ) → entries reversed (idx + k) ≡ entries rest k)
        → Built idx m
        → (r : Dependencies) × (build_dependencies range scc idx rest m ≡ ok r)
          × Built (length reversed) r
    unfolding build_dependencies
    build_dependencies-Built idx [] m fits same built =
        let q : idx ≡ length reversed = omega (arith, fits) in
        (m, refl, subst (λ k. Built k m) q built)
    build_dependencies-Built idx (edges ∷ rest) m fits same built =
        let (c, at) = get-some scc idx (omega (arith, fits, size)) in
        let q : idx + 0 ≡ idx = omega arith in
        let here : entries reversed idx ≡ edges =
          subst (λ k. entries reversed k ≡ edges) q (same 0) in
        let (r, run, built') =
          build_dependencies-Built (suc idx) rest _ (omega (arith, fits))
            (λ k.
              let p : idx + suc k ≡ suc idx + k = omega arith in
              subst (λ j. entries reversed j ≡ entries rest k) p (same (suc k)))
            (Built-next idx edges c m here at built) in
        (r, rw (build_dependencies, at) run, built')
