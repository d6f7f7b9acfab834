-- ===== src/Subset/Build/Added.antt =====
-- What the loops of NewGraph of subset/graph.go over references add to the edges.
use greenmask.Common.{
  ℕ, suc, ◌≡◌, inl, inr, refl, sym, ap, subst, ◌∙◌, Option, none, some, List, [], ◌∷◌, ◌++◌,
  append_assoc, append-nil, map, Bool, Bool-cases, Result, ok, err, panicked, stuck, on_ok, Bytes,
  All, All-append, get_elem?,
}
use greenmask.Subset.Types.{Table, Edge}
use greenmask.Subset.Build.{index_func, Links, each_in}
use greenmask.Subset.Build.Arrows.{first, Arrow, arrow, arrow_of, each_arrows, IsPlaced}

pub index_func-first :
    {A : Type 0} (p : A → Bool) (xs : List A)
    → elim (index_func p xs) [ none ↦ none | some i ↦ get_elem? xs i ] ≡ first p xs
unfolding index_func
index_func-first p [] = refl
index_func-first p (x ∷ xs) = elim (Bool-cases (p x)) [
  | inl e ↦ rw e refl
  | inr e ↦ rw e (shifted (index_func p xs) ∙ index_func-first p xs)
]
  where
    shifted :
        (o : Option ℕ)
        → elim (elim o as (λ z. Option ℕ) [ none ↦ none | some i ↦ some (suc i) ]) [
          | none ↦ none
          | some i ↦ get_elem? (x ∷ xs) i
        ]
          ≡ elim o [ none ↦ none | some i ↦ get_elem? xs i ]
    shifted none = refl
    shifted (some i) = refl

pub map-map :
    {A B C : Type 0} (f : B → C) (g : A → B) (h : A → C)
    → ((a : A) → f (g a) ≡ h a)
    → (xs : List A) → map f (map g xs) ≡ map h xs
map-map f g h same [] = refl
map-map f g h same (x ∷ xs) = rw (same x, map-map f g h same xs) refl

pub map-snoc :
    {A B : Type 0} (f : A → B) (xs : List A) (x : A) → map f (xs ++ x ∷ []) ≡ map f xs ++ f x ∷ []
map-snoc f [] x = refl
map-snoc f (y ∷ xs) x = ap (λ l. f y ∷ l) (map-snoc f xs x)

pub same_arrow :
    (source : ℕ) (target : Table) (nullable : Bool) (exprs : List Bytes)
    {columns columns' targets targets' : List (Bytes × Bytes)}
    → columns ≡ columns'
    → targets ≡ targets'
    → arrow source target nullable columns exprs targets
      ≡ arrow source target nullable columns' exprs targets'
same_arrow source target nullable exprs p q = rw (p, q) refl

-- A call that returns, returns what `P` holds of.
abbrev pub Returns : {A : Type 0} → (A → Type 0) → Result A → Type 0
Returns P (ok a) = P a
Returns P (err e) = Unit
Returns P panicked = Unit
Returns P stuck = Unit

pub Returns-then :
    {A B : Type 0} (P : A → Type 0) (Q : B → Type 0) (r : Result A) (k : A → Result B)
    → Returns P r
    → ((a : A) → P a → Returns Q (k a))
    → Returns Q (on_ok r k)
Returns-then P Q (ok a) k h rest = rest a h
Returns-then P Q (err e) k h rest = tt
Returns-then P Q panicked k h rest = tt
Returns-then P Q stuck k h rest = tt

pub Returns-any :
    {A B : Type 0} (Q : B → Type 0) (r : Result A) (k : A → Result B)
    → ((a : A) → Returns Q (k a))
    → Returns Q (on_ok r k)
Returns-any Q (ok a) k rest = rest a
Returns-any Q (err e) k rest = tt
Returns-any Q panicked k rest = tt
Returns-any Q stuck k rest = tt

pub Returns-map :
    {A : Type 0} (P Q : A → Type 0) (r : Result A)
    → Returns P r
    → ((a : A) → P a → Q a)
    → Returns Q r
Returns-map P Q (ok a) h f = f a h
Returns-map P Q (err e) h f = tt
Returns-map P Q panicked h f = tt
Returns-map P Q stuck h f = tt

abbrev pub with_edge : Links → Edge → List (List Edge) → List (List Edge) → List (List ℕ) → Links
with_edge l e graph reversed_graph simple = record {
  graph = graph;
  reversed_graph = reversed_graph;
  reversed_simple_graph = simple;
  edges = l.edges ++ e ∷ [];
  edge_id_sequence = suc l.edge_id_sequence;
}

abbrev pub appends :
    Links
    → Edge
    → Result (List (List Edge))
    → Result (List (List Edge))
    → Result (List (List ℕ))
    → Result Links
appends l e r reversed simple =
    on_ok r λ g. on_ok reversed λ h. on_ok simple λ s. ok (with_edge l e g h s)

module _ (tables : List Table) where
  -- The edges of `l'` are those of `l` and, behind them, those of the arrows.
  abbrev pub Added : Links → List Arrow → Links → Type 0
  Added l arrows l' =
      (map arrow_of l'.edges ≡ map arrow_of l.edges ++ arrows)
      × (All (IsPlaced tables) l.edges → All (IsPlaced tables) l'.edges)

  pub Added-none : (l : Links) → Added l [] l
  Added-none l = (rw append-nil, λ h. h)

  pub Added-trans :
      (l m n : Links) (xs ys : List Arrow) → Added l xs m → Added m ys n → Added l (xs ++ ys) n
  Added-trans l m n xs ys (p, f) (q, g) =
      (q ∙ ap (λ zs. zs ++ ys) p ∙ append_assoc (map arrow_of l.edges) xs ys, λ h. g (f h))

  pub Added-edge :
      (l l' : Links) (e : Edge) (a : Arrow)
      → l'.edges ≡ l.edges ++ e ∷ []
      → arrow_of e ≡ a
      → IsPlaced tables e
      → Added l (a ∷ []) l'
  Added-edge l l' e a same arrow placed = (
    ap (map arrow_of) same
        ∙ map-snoc arrow_of l.edges e
        ∙ ap (λ x. map arrow_of l.edges ++ x ∷ []) arrow,
    λ h. subst (All (IsPlaced tables)) (sym same) (All-append _ l.edges _ h (placed, tt)),
  )

  -- The end of the two loop bodies.
  pub Added-appends :
      (l : Links) (e : Edge) (a : Arrow) (r : Result (List (List Edge)))
      (reversed : Result (List (List Edge))) (simple : Result (List (List ℕ)))
      → arrow_of e ≡ a
      → IsPlaced tables e
      → Returns (Added l (a ∷ [])) (appends l e r reversed simple)
  Added-appends l e a (ok g) (ok h) (ok s) arrow placed =
      Added-edge l (with_edge l e g h s) e a refl arrow placed
  Added-appends l e a (ok g) (ok h) (err x) arrow placed = tt
  Added-appends l e a (ok g) (ok h) panicked arrow placed = tt
  Added-appends l e a (ok g) (ok h) stuck arrow placed = tt
  Added-appends l e a (ok g) (err x) simple arrow placed = tt
  Added-appends l e a (ok g) panicked simple arrow placed = tt
  Added-appends l e a (ok g) stuck simple arrow placed = tt
  Added-appends l e a (err x) reversed simple arrow placed = tt
  Added-appends l e a panicked reversed simple arrow placed = tt
  Added-appends l e a stuck reversed simple arrow placed = tt

  pub each_in-Added :
      {A : Type 0} (body : A → Links → Result Links) (f : A → List Arrow)
      → ((x : A) (l : Links) → Returns (Added l (f x)) (body x l))
      → (xs : List A) (l : Links) → Returns (Added l (each_arrows f xs)) (each_in body xs l)
  unfolding each_in
  each_in-Added body f step [] l = Added-none l
  each_in-Added body f step (x ∷ xs) l =
      Returns-then (Added l (f x)) (Added l (f x ++ each_arrows f xs)) (body x l) (each_in body xs)
        (step x l)
        λ m here.
          Returns-map (Added m (each_arrows f xs)) (Added l (f x ++ each_arrows f xs))
            (each_in body xs m) (each_in-Added body f step xs m)
            λ n rest. Added-trans l m n (f x) (each_arrows f xs) here rest
