-- ===== src/Subset/Reach.antt =====
-- Paths of a graph that is given by the targets of each vertex, membership, and the order in a list.
use greenmask.Common.{
  ℕ, ◌≡◌, ◌⊎◌, inl, inr, refl, sym, none, some, List, [], ◌∷◌, ◌++◌, get_elem?, zero, suc, ◌<◌,
  length, arith,
}

module _ {A : Type 0} where
  abbrev pub Elem : A → List A → Type 0
  Elem x [] = ⊥
  Elem x (y ∷ ys) = (x ≡ y) ⊎ Elem x ys

  -- `x` stands before `y`.
  abbrev pub Before : A → A → List A → Type 0
  Before x y [] = ⊥
  Before x y (z ∷ zs) = ((x ≡ z) × Elem y zs) ⊎ Before x y zs

  abbrev pub IsDistinct : List A → Type 0
  IsDistinct [] = Unit
  IsDistinct (x ∷ xs) = (¬ Elem x xs) × IsDistinct xs

  pub Elem-left : (x : A) (xs ys : List A) → Elem x xs → Elem x (xs ++ ys)
  Elem-left x [] ys h = absurd h
  Elem-left x (y ∷ xs) ys (inl e) = inl e
  Elem-left x (y ∷ xs) ys (inr h) = inr (Elem-left x xs ys h)

  pub Elem-right : (x : A) (xs ys : List A) → Elem x ys → Elem x (xs ++ ys)
  Elem-right x [] ys h = h
  Elem-right x (y ∷ xs) ys h = inr (Elem-right x xs ys h)

  pub Elem-append : (x : A) (xs ys : List A) → Elem x (xs ++ ys) → Elem x xs ⊎ Elem x ys
  Elem-append x [] ys h = inr h
  Elem-append x (y ∷ xs) ys (inl e) = inl (inl e)
  Elem-append x (y ∷ xs) ys (inr h) = elim (Elem-append x xs ys h) [
    | inl a ↦ inl (inr a)
    | inr b ↦ inr b
  ]

  -- The last element of a list that grew by one.
  pub Elem-snoc : (x y : A) (xs : List A) → Elem x (xs ++ y ∷ []) → Elem x xs ⊎ (x ≡ y)
  Elem-snoc x y xs h = elim (Elem-append x xs (y ∷ []) h) [
    | inl a ↦ inl a
    | inr b ↦ elim b [ inl e ↦ inr e | inr b' ↦ absurd b' ]
  ]

  pub Before-append : (x y : A) (xs ys : List A) → Before x y xs → Before x y (xs ++ ys)
  Before-append x y [] ys h = absurd h
  Before-append x y (z ∷ xs) ys (inl (e, h)) = inl (e, Elem-left y xs ys h)
  Before-append x y (z ∷ xs) ys (inr h) = inr (Before-append x y xs ys h)

  pub Before-snoc : (x y : A) (xs : List A) → Elem x xs → Before x y (xs ++ y ∷ [])
  Before-snoc x y [] h = absurd h
  Before-snoc x y (z ∷ xs) (inl e) = inl (e, Elem-right y xs (y ∷ []) (inl refl))
  Before-snoc x y (z ∷ xs) (inr h) = inr (Before-snoc x y xs h)

  pub Before-left : (x y : A) (xs : List A) → Before x y xs → Elem x xs
  Before-left x y [] h = absurd h
  Before-left x y (z ∷ xs) (inl (e, h)) = inl e
  Before-left x y (z ∷ xs) (inr h) = inr (Before-left x y xs h)

  pub Before-right : (x y : A) (xs : List A) → Before x y xs → Elem y xs
  Before-right x y [] h = absurd h
  Before-right x y (z ∷ xs) (inl (e, h)) = inr h
  Before-right x y (z ∷ xs) (inr h) = inr (Before-right x y xs h)

  pub IsDistinct-snoc :
      (x : A) (xs : List A) → IsDistinct xs → ¬ Elem x xs → IsDistinct (xs ++ x ∷ [])
  IsDistinct-snoc x [] d h = ((λ e. e), tt)
  IsDistinct-snoc x (y ∷ xs) (apart, d) h = (
    (λ m. elim (Elem-snoc y x xs m) [ inl a ↦ apart a | inr e ↦ h (inl (sym e)) ]),
    IsDistinct-snoc x xs d (λ m. h (inr m)),
  )

  -- No two elements of a list without repetition stand before each other.
  pub Before-asym : (x y : A) (xs : List A) → IsDistinct xs → Before x y xs → ¬ Before y x xs
  Before-asym x y [] d h g = h
  Before-asym x y (z ∷ xs) (apart, d) (inl (e, h)) (inl (e', g)) = apart (rw (sym e') h)
  Before-asym x y (z ∷ xs) (apart, d) (inl (e, h)) (inr g) =
      apart (rw (sym e) (Before-right y x xs g))
  Before-asym x y (z ∷ xs) (apart, d) (inr h) (inl (e', g)) =
      apart (rw (sym e') (Before-right x y xs h))
  Before-asym x y (z ∷ xs) (apart, d) (inr h) (inr g) = Before-asym x y xs d h g

  pub Before-trans :
      (x y z : A) (xs : List A) → IsDistinct xs → Before x y xs → Before y z xs → Before x z xs
  Before-trans x y z [] d h g = h
  Before-trans x y z (a ∷ xs) (apart, d) (inl (e, h)) (inl (e', g)) = absurd (apart (rw (sym e') h))
  Before-trans x y z (a ∷ xs) (apart, d) (inl (e, h)) (inr g) = inl (e, Before-right y z xs g)
  Before-trans x y z (a ∷ xs) (apart, d) (inr h) (inl (e', g)) =
      absurd (apart (rw (sym e') (Before-right x y xs h)))
  Before-trans x y z (a ∷ xs) (apart, d) (inr h) (inr g) = inr (Before-trans x y z xs d h g)

-- The targets of a vertex, and none for a vertex that is not there.
abbrev pub targets : List (List ℕ) → ℕ → List ℕ
targets graph v = elim (get_elem? graph v) [ none ↦ [] | some ws ↦ ws ]

-- Only a vertex has targets.
pub targets-source : (graph : List (List ℕ)) (v w : ℕ) → Elem w (targets graph v) → v < length graph
targets-source [] v w h = absurd h
targets-source (ws ∷ graph) zero w h = omega arith
targets-source (ws ∷ graph) (suc v) w h = omega (arith, targets-source graph v w h)

-- A walk along edges to `w`.
pub data Walk (graph : List (List ℕ)) (w : ℕ) : ℕ → Type 0 where
  stop : {u : ℕ} → u ≡ w → Walk graph w u
  go : {u x : ℕ} → Elem x (targets graph u) → Walk graph w x → Walk graph w u

module _ {graph : List (List ℕ)} where
  pub Walk-trans : {v w u : ℕ} → Walk graph v u → Walk graph w v → Walk graph w u
  Walk-trans {v} {w} {u} (stop e) q = rw e q
  Walk-trans (go h p) q = go h (Walk-trans p q)

  pub Walk-edge : {u v : ℕ} → Elem v (targets graph u) → Walk graph v u
  Walk-edge h = go h (stop refl)

-- Each of two vertices reaches the other.
abbrev pub Mutual : List (List ℕ) → ℕ → ℕ → Type 0
Mutual graph u v = Walk graph v u × Walk graph u v
