-- ===== src/Subset/Build/Appends.antt =====
-- What a reference does to the edges that NewGraph collects.
use greenmask.Common.{
  ℕ, zero, suc, ◌<◌, ◌≡◌, ◌⊎◌, inl, inr, refl, ap, Option, none, some, List, [], ◌∷◌, ◌++◌, map,
  Bool, true, false, ok, if◌then◌else◌, length, get_elem?, arith,
}
use greenmask.Subset.Reach.{Elem, Elem-left, Elem-right, Elem-snoc}
use greenmask.Subset.Build.{index_func, append_at, make_lists}

-- The target indices of each vertex.
abbrev pub indices {ℓ} : {A : Type ℓ} → (A → ℕ) → List (List A) → List (List ℕ)
indices f [] = []
indices f (xs ∷ xss) = map f xs ∷ indices f xss

-- The elements at an index, and none out of range.
abbrev pub entries : {A : Type 0} → List (List A) → ℕ → List A
entries xss i = elim (get_elem? xss i) [ none ↦ [] | some xs ↦ xs ]

-- An append at an index in range adds one element there.
pub record Appended {A : Type 0} (xss : List (List A)) (i : ℕ) (a : A) (yss : List (List A))
    : Type 0 where
  pub same_length : length yss ≡ length xss
  pub stays : (u : ℕ) (x : A) → Elem x (entries xss u) → Elem x (entries yss u)
  pub added : Elem a (entries yss i)
  pub fresh :
      (u : ℕ) (x : A) → Elem x (entries yss u) → Elem x (entries xss u) ⊎ ((u ≡ i) × (x ≡ a))

module _ {A : Type 0} where
  pub append_at-Appended :
      (xss : List (List A)) (i : ℕ) (a : A)
      → i < length xss
      → (yss : List (List A)) × (append_at xss i a ≡ ok yss) × Appended xss i a yss
  unfolding append_at
  append_at-Appended [] i a lt = absurd (omega arith)
  append_at-Appended (xs ∷ xss) zero a lt = (
    (xs ++ a ∷ []) ∷ xss,
    refl,
    record {
      same_length = refl;
      stays = λ u x h. stays u x h;
      added = Elem-right a xs (a ∷ []) (inl refl);
      fresh = λ u x h. fresh u x h;
    },
  )
    where
      stays :
          (u : ℕ) (x : A)
          → Elem x (entries (xs ∷ xss) u)
          → Elem x (entries ((xs ++ a ∷ []) ∷ xss) u)
      stays zero x h = Elem-left x xs (a ∷ []) h
      stays (suc u) x h = h

      fresh :
          (u : ℕ) (x : A)
          → Elem x (entries ((xs ++ a ∷ []) ∷ xss) u)
          → Elem x (entries (xs ∷ xss) u) ⊎ ((u ≡ 0) × (x ≡ a))
      fresh zero x h = elim (Elem-snoc x a xs h) [ inl m ↦ inl m | inr e ↦ inr (refl, e) ]
      fresh (suc u) x h = inl h
  append_at-Appended (xs ∷ xss) (suc i) a lt =
      let (yss, run, app) = append_at-Appended xss i a (omega arith) in
      (
        xs ∷ yss,
        rw run refl,
        record {
          same_length = ap suc app.same_length;
          stays = λ u x h. stays yss app u x h;
          added = app.added;
          fresh = λ u x h. fresh yss app u x h;
        },
      )
    where
      stays :
          (yss : List (List A))
          → Appended xss i a yss
          → (u : ℕ) (x : A) → Elem x (entries (xs ∷ xss) u)
          → Elem x (entries (xs ∷ yss) u)
      stays yss app zero x h = h
      stays yss app (suc u) x h = app.stays u x h

      fresh :
          (yss : List (List A))
          → Appended xss i a yss
          → (u : ℕ) (x : A) → Elem x (entries (xs ∷ yss) u)
          → Elem x (entries (xs ∷ xss) u) ⊎ ((u ≡ suc i) × (x ≡ a))
      fresh yss app zero x h = inl h
      fresh yss app (suc u) x h = elim (app.fresh u x h) [
        | inl m ↦ inl m
        | inr (e, e') ↦ inr (ap suc e, e')
      ]

pub length-make_lists : (A : Type 0) (n : ℕ) → length (make_lists {A = A} n) ≡ n
unfolding make_lists
length-make_lists A zero = refl
length-make_lists A (suc n) = ap suc (length-make_lists A n)

pub entries-make_lists : (A : Type 0) (n i : ℕ) → entries (make_lists {A = A} n) i ≡ []
unfolding make_lists
entries-make_lists A zero i = refl
entries-make_lists A (suc n) zero = refl
entries-make_lists A (suc n) (suc i) = entries-make_lists A n i

module _ {A : Type 0} where
  -- An index that is found is in range, and its element passes the test.
  pub index_func-found :
      (p : A → Bool) (xs : List A) (i : ℕ)
      → index_func p xs ≡ some i
      → (x : A) × (get_elem? xs i ≡ some x) × (p x ≡ true) × (i < length xs)
  unfolding index_func
  index_func-found p [] i h = cc
  index_func-found p (x ∷ xs) i h =
      pick (p x) refl (index_func p xs) (λ j. index_func-found p xs j) h
    where
      pick :
          (b : Bool)
          → p x ≡ b
          → (o : Option ℕ)
          → ((j : ℕ)
              → o ≡ some j
              → (y : A) × (get_elem? xs j ≡ some y) × (p y ≡ true) × (j < length xs))
          → (if b
              then some zero
              else (elim o as (λ z. Option ℕ) [ none ↦ none | some j ↦ some (suc j) ]))
            ≡ some i
          → (y : A) × (get_elem? (x ∷ xs) i ≡ some y) × (p y ≡ true) × (i < suc (length xs))
      pick true e o found g = let same : i ≡ zero = cc in (x, rw same refl, e, omega (arith, same))
      pick false e none found g = cc
      pick false e (some j) found g =
          let (y, at, holds, lt) = found j refl in
          let same : i ≡ suc j = cc in (y, rw same at, holds, omega (arith, same))
