-- ===== src/Restore/Blocked.antt =====
-- The entries that taskPusher of cmd/restore.go waits before for ever.
use greenmask.Common.{
  ℕ, zero, suc, ◌≡◌, ◌⊎◌, inl, inr, refl, sym, ap, subst, ◌∙◌, List, ◌∷◌, true, Result, ok,
}
use greenmask.Subset.Reach.{Elem, Elem-right, Elem-snoc}
use greenmask.Toc.Types.{Entry}
use greenmask.Restore.{
  Options, Metadata, Action, skip, wait_only, wait_and_send, action, awaited,
  dependencies_are_restored, Pool, Step, skipped, waited, sent, taken, finished, Run, rest, step,
}
use greenmask.Restore.Safety.{restored-Elem, Elem-without}

module _ (opts : Options) (meta : Metadata) where
  -- No entry can restore `d`, and `e` waits for it.
  pub record IsBlocked (e : Entry) (d : ℕ) (s : Pool) : Type 0 where
    pub waits : Elem d (awaited opts meta e)
    pub goes_on : (action opts meta e ≡ ok wait_only) ⊎ (action opts meta e ≡ ok wait_and_send)
    pub pending : Elem e s.todo
    pub never_todo : (f : Entry) → Elem f s.todo → f.dump_id ≡ d → action opts meta f ≡ ok skip
    pub never_tasks : (f : Entry) → Elem f s.tasks ⊎ Elem f s.running → f.dump_id ≡ d → ⊥
    pub never_restored : ¬ Elem d s.restored

  not_skip :
      (e : Entry)
      → (action opts meta e ≡ ok wait_only) ⊎ (action opts meta e ≡ ok wait_and_send)
      → action opts meta e ≡ ok skip
      → ⊥
  not_skip e (inl p) q = wait_only_skip (sym p ∙ q)
    where
      wait_only_skip : ◌≡◌ {A = Result Action} (ok wait_only) (ok skip) → ⊥
      wait_only_skip h = cc
  not_skip e (inr p) q = send_skip (sym p ∙ q)
    where
      send_skip : ◌≡◌ {A = Result Action} (ok wait_and_send) (ok skip) → ⊥
      send_skip h = cc

  -- An entry that waits for `d` is not the head that taskPusher goes past.
  not_past :
      (e : Entry) (d : ℕ) (restored : List ℕ)
      → Elem d (awaited opts meta e)
      → dependencies_are_restored restored (awaited opts meta e) ≡ true
      → ¬ Elem d restored
      → ⊥
  not_past e d restored waits r none = none (restored-Elem restored (awaited opts meta e) r d waits)

  IsBlocked-step :
      (e : Entry) (d : ℕ) (s t : Pool) → Step opts meta s t → IsBlocked e d s → IsBlocked e d t
  IsBlocked-step e d s t (skipped {e = f} a) b = record {
    waits = b.waits;
    goes_on = b.goes_on;
    pending = elim b.pending [
      | inl p ↦ absurd (not_skip e b.goes_on (subst (λ x. action opts meta x ≡ ok skip) (sym p) a))
      | inr m ↦ m
    ];
    never_todo = λ g m. b.never_todo g (inr m);
    never_tasks = b.never_tasks;
    never_restored = b.never_restored;
  }
  IsBlocked-step e d s t (waited {e = f} {restored = restored} a r) b = record {
    waits = b.waits;
    goes_on = b.goes_on;
    pending = elim b.pending [
      | inl p ↦ absurd (
          not_past f d restored (subst (λ x. Elem d (awaited opts meta x)) p b.waits) r
            b.never_restored)
      | inr m ↦ m
    ];
    never_todo = λ g m. b.never_todo g (inr m);
    never_tasks = b.never_tasks;
    never_restored = b.never_restored;
  }
  IsBlocked-step e d s t (sent {e = f} {tasks = tasks} {restored = restored} a r room) b = record {
    waits = b.waits;
    goes_on = b.goes_on;
    pending = elim b.pending [
      | inl p ↦ absurd (
          not_past f d restored (subst (λ x. Elem d (awaited opts meta x)) p b.waits) r
            b.never_restored)
      | inr m ↦ m
    ];
    never_todo = λ g m. b.never_todo g (inr m);
    never_tasks = λ g m q. elim m [
      | inl m' ↦ elim (Elem-snoc g f tasks m') [
        | inl m'' ↦ b.never_tasks g (inl m'') q
        | inr p ↦ not_skip f (inr a) (b.never_todo f (inl refl) (ap (λ x. x.dump_id) (sym p) ∙ q))
      ]
      | inr m' ↦ b.never_tasks g (inr m') q
    ];
    never_restored = b.never_restored;
  }
  IsBlocked-step e d s t (taken {e = f} room) b = record {
    waits = b.waits;
    goes_on = b.goes_on;
    pending = b.pending;
    never_todo = b.never_todo;
    never_tasks = λ g m. elim m [
      | inl m' ↦ b.never_tasks g (inl (inr m'))
      | inr m' ↦ elim m' [
        | inl p ↦ b.never_tasks g (inl (inl p))
        | inr m'' ↦ b.never_tasks g (inr m'')
      ]
    ];
    never_restored = b.never_restored;
  }
  IsBlocked-step e d s t (finished {restored = restored} f before after) b = record {
    waits = b.waits;
    goes_on = b.goes_on;
    pending = b.pending;
    never_todo = b.never_todo;
    never_tasks = λ g m. elim m [
      | inl m' ↦ b.never_tasks g (inl m')
      | inr m' ↦ b.never_tasks g (inr (Elem-without g f before after m'))
    ];
    never_restored = λ m. elim (Elem-snoc d f.dump_id restored m) [
      | inl m' ↦ b.never_restored m'
      | inr p ↦ b.never_tasks f (inr (Elem-right f before (f ∷ after) (inl refl))) (sym p)
    ];
  }

  -- When an entry that taskPusher does not skip waits for an identifier that is not restored, not
  -- sent, and only that of entries that taskPusher skips, it is still to come after every run:
  -- taskPusher waits for ever.
  pub Run-IsBlocked :
      (n : ℕ) (e : Entry) (d : ℕ) (s t : Pool)
      → Run opts meta n s t
      → IsBlocked e d s
      → IsBlocked e d t
  Run-IsBlocked zero e d s t rest b = b
  Run-IsBlocked (suc n) e d s t (step {t = u} x run) b =
      Run-IsBlocked n e d u t run (IsBlocked-step e d s u x b)
