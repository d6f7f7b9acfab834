-- ===== src/Subset/Component/Assign.antt =====
-- The marks of findAllCyclesDfs of subset/component.go: one is set or cleared, and how many are missing.
use greenmask.Common.{
  ℕ, suc, ◌<◌, ◌≤◌, ◌≡◌, ◌⊎◌, inl, inr, refl, sym, subst, List, [], ◌∷◌, Bool, true, false,
  Bool-cases, if◌then◌else◌, ◌==◌, ==_iff, length, arith,
}
use greenmask.Subset.Reach.{Elem}
use greenmask.Subset.Types.{Edge}
use greenmask.Subset.Component.{assign}
use greenmask.Subset.Component.Cycles.{keys}

-- How many of the vertices are not visited.
abbrev pub left : (ℕ → Bool) → List ℕ → ℕ
left seen [] = 0
left seen (v ∷ vs) = let rest = left seen vs in if seen v then rest else suc rest

pub assign-same : (m : ℕ → Bool) (v : ℕ) (b : Bool) → assign m v b v ≡ b
unfolding assign
assign-same m v b = ground arith

pub assign-other : (m : ℕ → Bool) (v u : ℕ) (b : Bool) → (v ≡ u → ⊥) → assign m v b u ≡ m u
unfolding assign
assign-other m v u b ne = elim (Bool-cases (v == u)) [
  | inl e ↦ absurd (ne ((==_iff v u).0 e))
  | inr e ↦ rw e refl
]

-- A mark keeps the others.
pub assign-keeps : (m : ℕ → Bool) (v u : ℕ) → m u ≡ true → assign m v true u ≡ true
unfolding assign
assign-keeps m v u h = elim (Bool-cases (v == u)) [ inl e ↦ rw e refl | inr e ↦ rw e h ]

pub assign-true : (m : ℕ → Bool) (v u : ℕ) → assign m v true u ≡ true → (u ≡ v) ⊎ (m u ≡ true)
unfolding assign
assign-true m v u h = elim (Bool-cases (v == u)) [
  | inl e ↦ inl (sym ((==_iff v u).0 e))
  | inr e ↦ inr (other e h)
]
  where
    other : (v == u) ≡ false → (if v == u then true else m u) ≡ true → m u ≡ true
    other e g = subst (λ b. (if b then true else m u) ≡ true) e g

pub assign-false : (m : ℕ → Bool) (v u : ℕ) → assign m v false u ≡ true → (u ≡ v → ⊥) × (m u ≡ true)
unfolding assign
assign-false m v u h = elim (Bool-cases (v == u)) [
  | inl e ↦ absurd (clash (subst (λ b. (if b then false else m u) ≡ true) e h))
  | inr e ↦ ((λ p. differ (sym p) e), subst (λ b. (if b then false else m u) ≡ true) e h)
]
  where
    clash : false ≡ true → ⊥
    clash p = cc

    differ : v ≡ u → (v == u) ≡ false → ⊥
    differ p q = ground arith

left-le : (m : ℕ → Bool) (v : ℕ) (vs : List ℕ) → left (assign m v true) vs ≤ left m vs
unfolding assign
left-le m v [] = omega arith
left-le m v (u ∷ vs) = elim (Bool-cases (v == u)) [
  | inl e ↦ elim (Bool-cases (m u)) [
    | inl f ↦ rw (e, f) (left-le m v vs)
    | inr f ↦ rw (e, f) (omega (arith, left-le m v vs))
  ]
  | inr e ↦ elim (Bool-cases (m u)) [
    | inl f ↦ rw (e, f) (left-le m v vs)
    | inr f ↦ rw (e, f) (omega (arith, left-le m v vs))
  ]
]

pub left-assign :
    (m : ℕ → Bool) (v : ℕ) (vs : List ℕ)
    → Elem v vs
    → m v ≡ false
    → left (assign m v true) vs < left m vs
unfolding assign
left-assign m v [] h new = absurd h
left-assign m v (u ∷ vs) (inl p) new =
    rw ((==_iff v u).1 p, subst (λ k. m k ≡ false) p new) (omega (arith, left-le m v vs))
left-assign m v (u ∷ vs) (inr h) new = elim (Bool-cases (v == u)) [
  | inl e ↦ rw (e, subst (λ k. m k ≡ false) ((==_iff v u).0 e) new) (omega (arith, left-le m v vs))
  | inr e ↦ elim (Bool-cases (m u)) [
    | inl f ↦ rw (e, f) (left-assign m v vs h new)
    | inr f ↦ rw (e, f) (omega (arith, left-assign m v vs h new))
  ]
]

pub left-length : (m : ℕ → Bool) (graph : List (ℕ × List Edge)) → left m (keys graph) ≤ length graph
left-length m [] = omega arith
left-length m ((v, edges) ∷ graph) = elim (Bool-cases (m v)) [
  | inl e ↦ rw e (omega (arith, left-length m graph))
  | inr e ↦ rw e (omega (arith, left-length m graph))
]
