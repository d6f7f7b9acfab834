-- ===== src/Restore/Safety.antt =====
-- The steps of taskPusher and the workers in cmd/restore.go: a task runs only when its dependencies are
-- restored.
use greenmask.Common.{
  ℕ, zero, suc, ◌≡◌, ◌⊎◌, inl, inr, refl, sym, subst, List, [], ◌∷◌, ◌++◌, true, false, Bool-cases,
  if◌then◌else◌, ◌==◌, ==_iff,
}
use greenmask.Subset.Reach.{
  Elem, Elem-left, Elem-right, Elem-snoc, Before, Before-append, Before-snoc,
}
use greenmask.Toc.Types.{Entry}
use greenmask.Restore.{
  Options, Metadata, awaited, contains_oid, dependencies_are_restored, Pool, Step, skipped, waited,
  sent, taken, finished, Run, rest, step,
}

pub contains_oid-Elem : (xs : List ℕ) (x : ℕ) → contains_oid xs x ≡ true → Elem x xs
unfolding contains_oid
contains_oid-Elem [] x h = cc
contains_oid-Elem (y ∷ ys) x h = elim (Bool-cases (y == x)) [
  | inl e ↦ inl (sym ((==_iff y x).0 e))
  | inr e ↦
      inr (contains_oid-Elem ys x (subst (λ b. (if b then true else contains_oid ys x) ≡ true) e h))
]

pub Elem-contains_oid : (xs : List ℕ) (x : ℕ) → Elem x xs → contains_oid xs x ≡ true
unfolding contains_oid
Elem-contains_oid [] x h = absurd h
Elem-contains_oid (y ∷ ys) x h = elim (Bool-cases (y == x)) [
  | inl e ↦ rw e refl
  | inr e ↦ elim h [
    | inl p ↦ rw ((==_iff y x).1 (sym p)) refl
    | inr h' ↦ rw e (Elem-contains_oid ys x h')
  ]
]

pub restored-Elem :
    (restored deps : List ℕ)
    → dependencies_are_restored restored deps ≡ true
    → (d : ℕ) → Elem d deps
    → Elem d restored
unfolding dependencies_are_restored
restored-Elem restored [] h d m = absurd m
restored-Elem restored (x ∷ deps) h d m = elim (Bool-cases (contains_oid restored x)) [
  | inl e ↦ elim m [
    | inl p ↦ subst (λ k. Elem k restored) (sym p) (contains_oid-Elem restored x e)
    | inr m' ↦
        restored-Elem restored deps
          (subst (λ b. (if b then dependencies_are_restored restored deps else false) ≡ true) e h) d
          m'
  ]
  | inr e ↦ absurd (
      clash
        (subst (λ b. (if b then dependencies_are_restored restored deps else false) ≡ true) e h))
]
  where
    clash : false ≡ true → ⊥
    clash p = cc

pub Elem-restored :
    (restored deps : List ℕ)
    → ((d : ℕ) → Elem d deps → Elem d restored)
    → dependencies_are_restored restored deps ≡ true
unfolding dependencies_are_restored
Elem-restored restored [] all = refl
Elem-restored restored (x ∷ deps) all =
    rw (Elem-contains_oid restored x (all x (inl refl)))
      (Elem-restored restored deps (λ d m. all d (inr m)))

-- An element that is left when one is taken out.
pub Elem-without :
    {A : Type 0} (x e : A) (xs ys : List A) → Elem x (xs ++ ys) → Elem x (xs ++ e ∷ ys)
Elem-without x e [] ys h = inr h
Elem-without x e (z ∷ xs) ys (inl p) = inl p
Elem-without x e (z ∷ xs) ys (inr h) = inr (Elem-without x e xs ys h)

pub Elem-with :
    {A : Type 0} (x e : A) (xs ys : List A) → Elem x (xs ++ e ∷ ys) → (x ≡ e) ⊎ Elem x (xs ++ ys)
Elem-with x e [] ys (inl p) = inl p
Elem-with x e [] ys (inr h) = inr h
Elem-with x e (z ∷ xs) ys (inl p) = inr (inl p)
Elem-with x e (z ∷ xs) ys (inr h) = elim (Elem-with x e xs ys h) [
  | inl p ↦ inl p
  | inr m ↦ inr (inr m)
]

module _ (opts : Options) (meta : Metadata) where
  -- What runs or is sent has its dependencies restored, and they were restored before it.
  pub record IsHonest (s : Pool) : Type 0 where
    pub sent_after :
        (e : Entry)
        → Elem e s.tasks ⊎ Elem e s.running
        → (d : ℕ) → Elem d (awaited opts meta e)
        → Elem d s.restored
    pub restored_after :
        (i : ℕ)
        → Elem i s.restored
        → (e : Entry) × (e.dump_id ≡ i)
          × ((d : ℕ) → Elem d (awaited opts meta e) → Before d i s.restored)

  IsHonest-step : (s t : Pool) → Step opts meta s t → IsHonest s → IsHonest t
  IsHonest-step s t (skipped a) h = record {
    sent_after = h.sent_after;
    restored_after = h.restored_after;
  }
  IsHonest-step s t (waited a r) h = record {
    sent_after = h.sent_after;
    restored_after = h.restored_after;
  }
  IsHonest-step s t (sent {e = e} {tasks = tasks} {restored = restored} a r room) h = record {
    sent_after = λ f m d n. elim m [
      | inl m' ↦ elim (Elem-snoc f e tasks m') [
        | inl m'' ↦ h.sent_after f (inl m'') d n
        | inr p ↦
            restored-Elem restored (awaited opts meta e) r d
              (subst (λ x. Elem d (awaited opts meta x)) p n)
      ]
      | inr m' ↦ h.sent_after f (inr m') d n
    ];
    restored_after = h.restored_after;
  }
  IsHonest-step s t (taken {e = e} room) h = record {
    sent_after = λ f m d n. elim m [
      | inl m' ↦ h.sent_after f (inl (inr m')) d n
      | inr m' ↦ elim m' [
        | inl p ↦ h.sent_after f (inl (inl p)) d n
        | inr m'' ↦ h.sent_after f (inr m'') d n
      ]
    ];
    restored_after = h.restored_after;
  }
  IsHonest-step s t (finished {restored = restored} e before after) h = record {
    sent_after = λ f m d n. Elem-left d restored (e.dump_id ∷ []) (
        h.sent_after f
          (elim m [ inl m' ↦ inl m' | inr m' ↦ inr (Elem-without f e before after m') ]) d n);
    restored_after = λ i m. elim (Elem-snoc i e.dump_id restored m) [
      | inl m' ↦
          let (f, p, q) = h.restored_after i m' in
          (f, p, λ d n. Before-append d i restored (e.dump_id ∷ []) (q d n))
      | inr p ↦ (
        e,
        sym p,
        λ d n.
            subst (λ k. Before d k (restored ++ e.dump_id ∷ [])) (sym p)
              (Before-snoc d e.dump_id restored
                (h.sent_after e (inr (Elem-right e before (e ∷ after) (inl refl))) d n)),
      )
    ];
  }

  -- A run of taskPusher and the workers keeps this: a task that is sent or runs has the
  -- dependencies that it waits for restored, and each restored identifier is that of an entry whose
  -- dependencies were restored before it.
  pub Run-IsHonest : (n : ℕ) (s t : Pool) → Run opts meta n s t → IsHonest s → IsHonest t
  Run-IsHonest zero s t rest h = h
  Run-IsHonest (suc n) s t (step {t = u} x run) h = Run-IsHonest n u t run (IsHonest-step s u x h)
