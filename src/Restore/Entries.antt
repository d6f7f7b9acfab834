-- ===== src/Restore/Entries.antt =====
-- Entries and identifiers, as sortTocEntriesInTopoOrder of cmd/restore.go finds them.
use greenmask.Common.{
  ℕ, ◌≡◌, ◌⊎◌, inl, inr, refl, sym, ap, subst, ◌∙◌, none, some, List, [], ◌∷◌, ◌++◌, Bool, true,
  false, if◌then◌else◌, ◌==◌, ==_iff, Bool-cases,
}
use greenmask.Subset.Reach.{Elem, IsDistinct}
use greenmask.Toc.Types.{Entry}
use greenmask.Restore.{contains_oid}
use greenmask.Restore.Safety.{contains_oid-Elem, Elem-contains_oid}
use greenmask.Restore.Progress.{ids}
use greenmask.Restore.Order.{find_entry}

pub clash : {b : Bool} → b ≡ true → b ≡ false → ⊥
clash p q = cc

pub find_entry-id :
    (entries : List Entry) (i : ℕ) (e : Entry) → find_entry entries i ≡ some e → e.dump_id ≡ i
unfolding find_entry
find_entry-id [] i e h = cc
find_entry-id (x ∷ entries) i e h = pick (x.dump_id == i) refl h (λ g. find_entry-id entries i e g)
  where
    some_eq : (a b : Entry) → some a ≡ some b → a ≡ b
    some_eq a b q = cc

    pick :
        (b : Bool)
        → (x.dump_id == i) ≡ b
        → (if b then some x else find_entry entries i) ≡ some e
        → (find_entry entries i ≡ some e → e.dump_id ≡ i)
        → e.dump_id ≡ i
    pick true p g behind = ap (λ y. y.dump_id) (sym (some_eq x e g)) ∙ (==_iff x.dump_id i).0 p
    pick false p g behind = behind g

pub find_entry-none :
    (entries : List Entry) (e : Entry) → Elem e entries → find_entry entries e.dump_id ≡ none → ⊥
unfolding find_entry
find_entry-none [] e h q = h
find_entry-none (x ∷ entries) e (inl p) q = absent (
    subst (λ b. (if b then some x else find_entry entries e.dump_id) ≡ none)
      ((==_iff x.dump_id e.dump_id).1 (ap (λ y. y.dump_id) (sym p))) q)
  where
    absent : some x ≡ none → ⊥
    absent g = cc
find_entry-none (x ∷ entries) e (inr h) q =
    pick (x.dump_id == e.dump_id) q (λ g. find_entry-none entries e h g)
  where
    pick :
        (b : Bool)
        → (if b then some x else find_entry entries e.dump_id) ≡ none
        → (find_entry entries e.dump_id ≡ none → ⊥)
        → ⊥
    pick true g behind = cc
    pick false g behind = behind g

pub find_entry-Elem :
    (entries : List Entry) (i : ℕ) (e : Entry) → find_entry entries i ≡ some e → Elem e entries
unfolding find_entry
find_entry-Elem [] i e h = cc
find_entry-Elem (x ∷ entries) i e h = pick (x.dump_id == i) h (λ g. find_entry-Elem entries i e g)
  where
    some_eq : (a b : Entry) → some a ≡ some b → a ≡ b
    some_eq a b q = cc

    pick :
        (b : Bool)
        → (if b then some x else find_entry entries i) ≡ some e
        → (find_entry entries i ≡ some e → Elem e entries)
        → Elem e (x ∷ entries)
    pick true g behind = inl (sym (some_eq x e g))
    pick false g behind = inr (behind g)

pub Elem-ids : (entries : List Entry) (e : Entry) → Elem e entries → Elem e.dump_id (ids entries)
Elem-ids [] e h = absurd h
Elem-ids (x ∷ entries) e (inl p) = inl (ap (λ y. y.dump_id) p)
Elem-ids (x ∷ entries) e (inr h) = inr (Elem-ids entries e h)

pub ids-Elem :
    (entries : List Entry) (i : ℕ)
    → Elem i (ids entries)
    → (e : Entry) × Elem e entries × (e.dump_id ≡ i)
ids-Elem [] i h = absurd h
ids-Elem (x ∷ entries) i (inl p) = (x, inl refl, sym p)
ids-Elem (x ∷ entries) i (inr h) = let (e, m, p) = ids-Elem entries i h in (e, inr m, p)

-- The identifiers of the order that entries have, in the order.
abbrev pub kept_ids : List Entry → List ℕ → List ℕ
kept_ids entries [] = []
kept_ids entries (i ∷ order) =
    if contains_oid (ids entries) i then i ∷ kept_ids entries order else kept_ids entries order

pub found-kept :
    (entries : List Entry) (i : ℕ) (x : Entry)
    → find_entry entries i ≡ some x
    → contains_oid (ids entries) i ≡ true
found-kept entries i x found = Elem-contains_oid (ids entries) i (
    subst (λ k. Elem k (ids entries)) (find_entry-id entries i x found)
      (Elem-ids entries x (find_entry-Elem entries i x found)))

pub missing-dropped :
    (entries : List Entry) (i : ℕ)
    → find_entry entries i ≡ none
    → contains_oid (ids entries) i ≡ false
missing-dropped entries i missing = elim (Bool-cases (contains_oid (ids entries) i)) [
  | inl e ↦
      let (x, m, p) = ids-Elem entries i (contains_oid-Elem (ids entries) i e) in
      absurd
        (find_entry-none entries x m (subst (λ k. find_entry entries k ≡ none) (sym p) missing))
  | inr e ↦ e
]

-- The first list has elements of the second, in its order.
abbrev pub IsSublist : List Entry → List Entry → Type 0
IsSublist [] ys = Unit
IsSublist (x ∷ xs) [] = ⊥
IsSublist (x ∷ xs) (y ∷ ys) = ((x ≡ y) × IsSublist xs ys) ⊎ IsSublist (x ∷ xs) ys

pub IsSublist-cons : (xs ys : List Entry) (y : Entry) → IsSublist xs ys → IsSublist xs (y ∷ ys)
IsSublist-cons [] ys y h = tt
IsSublist-cons (x ∷ xs) ys y h = inr h

pub IsDistinct-append :
    (xs ys : List ℕ)
    → IsDistinct xs
    → IsDistinct ys
    → ((x : ℕ) → Elem x xs → ¬ Elem x ys)
    → IsDistinct (xs ++ ys)
IsDistinct-append [] ys p q apart = q
IsDistinct-append (x ∷ xs) ys (new, p) q apart = (
  (λ h. elim (either x xs ys h) [ inl a ↦ new a | inr b ↦ apart x (inl refl) b ]),
  IsDistinct-append xs ys p q (λ y h. apart y (inr h)),
)
  where
    either : (x : ℕ) (xs ys : List ℕ) → Elem x (xs ++ ys) → Elem x xs ⊎ Elem x ys
    either x [] ys h = inr h
    either x (y ∷ xs) ys (inl e) = inl (inl e)
    either x (y ∷ xs) ys (inr h) = elim (either x xs ys h) [ inl a ↦ inl (inr a) | inr b ↦ inr b ]

pub ids-append : (xs ys : List Entry) → ids (xs ++ ys) ≡ ids xs ++ ids ys
ids-append [] ys = refl
ids-append (x ∷ xs) ys = ap (λ zs. x.dump_id ∷ zs) (ids-append xs ys)
