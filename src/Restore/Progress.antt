-- ===== src/Restore/Progress.antt =====
-- The data stage of cmd/restore.go ends: entries that come behind their dependencies are all restored.
use greenmask.Common.{
  ℕ, zero, suc, ◌+◌, ◌*◌, ◌<◌, ◌≤◌, ◌≡◌, ◌⊎◌, inl, inr, refl, sym, ap, subst, ◌∙◌, List, [], ◌∷◌,
  ◌++◌, map, length, length-append, Result, ok, arith,
}
use greenmask.Subset.Reach.{Elem, Elem-left, Elem-right}
use greenmask.Toc.Types.{Entry}
use greenmask.Restore.{
  Options, Metadata, Action, skip, wait_only, wait_and_send, action, awaited, Pool, Step, skipped,
  waited, sent, taken, finished, Run, rest, step,
}
use greenmask.Restore.Safety.{Elem-restored}

abbrev pub ids : List Entry → List ℕ
ids = map (λ e. e.dump_id)

-- The task of the identifier was sent.
abbrev pub IsSent : Pool → ℕ → Type 0
IsSent s d = Elem d (ids s.tasks) ⊎ (Elem d (ids s.running) ⊎ Elem d s.restored)

abbrev pub IsDone : Pool → Type 0
IsDone s = (s.todo ≡ []) × (s.tasks ≡ []) × (s.running ≡ [])

pub Elem-ids-append :
    (d : ℕ) (xs ys : List Entry) → Elem d (ids (xs ++ ys)) → Elem d (ids xs) ⊎ Elem d (ids ys)
Elem-ids-append d [] ys h = inr h
Elem-ids-append d (x ∷ xs) ys (inl p) = inl (inl p)
Elem-ids-append d (x ∷ xs) ys (inr h) = elim (Elem-ids-append d xs ys h) [
  | inl a ↦ inl (inr a)
  | inr b ↦ inr b
]

pub Elem-ids-left : (d : ℕ) (xs ys : List Entry) → Elem d (ids xs) → Elem d (ids (xs ++ ys))
Elem-ids-left d [] ys h = absurd h
Elem-ids-left d (x ∷ xs) ys (inl p) = inl p
Elem-ids-left d (x ∷ xs) ys (inr h) = inr (Elem-ids-left d xs ys h)

pub Elem-ids-right : (d : ℕ) (xs ys : List Entry) → Elem d (ids ys) → Elem d (ids (xs ++ ys))
Elem-ids-right d [] ys h = h
Elem-ids-right d (x ∷ xs) ys h = inr (Elem-ids-right d xs ys h)

module _ (opts : Options) (meta : Metadata) where
  abbrev Waits : Action → Entry → (ℕ → Type 0) → Type 0
  Waits skip e P = Unit
  Waits wait_only e P = (d : ℕ) → Elem d (awaited opts meta e) → P d
  Waits wait_and_send e P = (d : ℕ) → Elem d (awaited opts meta e) → P d

  abbrev Behind : Action → Entry → (ℕ → Type 0) → ℕ → Type 0
  Behind skip e P d = P d
  Behind wait_only e P d = P d
  Behind wait_and_send e P d = P d ⊎ (d ≡ e.dump_id)

  -- The action of each entry is known, and what it waits for was sent or is sent by an entry before it.
  abbrev pub IsReady : List Entry → (ℕ → Type 0) → Type 0
  IsReady [] P = Unit
  IsReady (e ∷ todo) P =
      (a : Action) × (action opts meta e ≡ ok a) × Waits a e P × IsReady todo (Behind a e P)

  IsReady-mono :
      (todo : List Entry) (P Q : ℕ → Type 0)
      → ((d : ℕ) → P d → Q d)
      → IsReady todo P
      → IsReady todo Q
  IsReady-mono [] P Q f h = tt
  IsReady-mono (e ∷ todo) P Q f (skip, p, w, r) = (skip, p, tt, IsReady-mono todo P Q f r)
  IsReady-mono (e ∷ todo) P Q f (wait_only, p, w, r) =
      (wait_only, p, (λ d m. f d (w d m)), IsReady-mono todo P Q f r)
  IsReady-mono (e ∷ todo) P Q f (wait_and_send, p, w, r) = (
    wait_and_send,
    p,
    (λ d m. f d (w d m)),
    IsReady-mono todo (λ d. P d ⊎ (d ≡ e.dump_id)) (λ d. Q d ⊎ (d ≡ e.dump_id))
        (λ d h. elim h [ inl a ↦ inl (f d a) | inr b ↦ inr b ]) r,
  )

  -- A step keeps what was sent.
  IsSent-on : (s t : Pool) → Step opts meta s t → (d : ℕ) → IsSent s d → IsSent t d
  IsSent-on s t (skipped a) d h = h
  IsSent-on s t (waited a r) d h = h
  IsSent-on s t (sent {e = e} {tasks = tasks} a r room) d h = elim h [
    | inl m ↦ inl (Elem-ids-left d tasks (e ∷ []) m)
    | inr m ↦ inr m
  ]
  IsSent-on s t (taken room) d h = elim h [
    | inl m ↦ elim m [ inl p ↦ inr (inl (inl p)) | inr m' ↦ inl m' ]
    | inr m ↦ elim m [ inl m' ↦ inr (inl (inr m')) | inr m' ↦ inr (inr m') ]
  ]
  IsSent-on s t (finished {restored = restored} e before after) d h = elim h [
    | inl m ↦ inl m
    | inr m ↦ elim m [
      | inl m' ↦ elim (Elem-ids-append d before (e ∷ after) m') [
        | inl a ↦ inr (inl (Elem-ids-left d before after a))
        | inr b ↦ elim b [
          | inl p ↦ inr (inr (Elem-right d restored (e.dump_id ∷ []) (inl p)))
          | inr c ↦ inr (inl (Elem-ids-right d before after c))
        ]
      ]
      | inr m' ↦ inr (inr (Elem-left d restored (e.dump_id ∷ []) m'))
    ]
  ]

  abbrev Ready : Pool → Type 0
  Ready s = IsReady s.todo (IsSent s)

  same_action :
      (e : Entry) (a b : Action) → action opts meta e ≡ ok a → action opts meta e ≡ ok b → a ≡ b
  same_action e a b p q = ok_inj a b (sym p ∙ q)
    where
      ok_inj : (a b : Action) → ◌≡◌ {A = Result Action} (ok a) (ok b) → a ≡ b
      ok_inj a b h = cc

  -- What is ready behind the head.
  ready_tail :
      (e : Entry) (todo : List Entry) (P : ℕ → Type 0) (a : Action)
      → action opts meta e ≡ ok a
      → IsReady (e ∷ todo) P
      → IsReady todo (Behind a e P)
  ready_tail e todo P a p (b, q, w, r) =
      subst (λ c. IsReady todo (Behind c e P)) (same_action e b a q p) r

  Ready-step : (s t : Pool) → Step opts meta s t → Ready s → Ready t
  Ready-step s t (skipped {e = e} {todo = todo} a) h = ready_tail e todo _ skip a h
  Ready-step s t (waited {e = e} {todo = todo} a r) h = ready_tail e todo _ wait_only a h
  Ready-step s t (sent {e = e} {todo = todo} {tasks = tasks} a r room) h =
      IsReady-mono todo _ _
        (λ d m. elim m [
          | inl m' ↦ elim m' [ inl x ↦ inl (Elem-ids-left d tasks (e ∷ []) x) | inr y ↦ inr y ]
          | inr p ↦ inl (Elem-ids-right d tasks (e ∷ []) (inl p))
        ])
        (ready_tail e todo _ wait_and_send a h)
  Ready-step s t (taken {todo = todo} room) h = IsReady-mono todo _ _ (IsSent-on s t (taken room)) h
  Ready-step s t (finished {todo = todo} e before after) h =
      IsReady-mono todo _ _ (IsSent-on s t (finished e before after)) h

  -- How many steps are left.
  abbrev pub steps_left : Pool → ℕ
  steps_left s = 3 * length s.todo + 2 * length s.tasks + length s.running

  steps_left-step : (s t : Pool) → Step opts meta s t → suc (steps_left t) ≤ steps_left s
  steps_left-step s t (skipped a) = omega arith
  steps_left-step s t (waited a r) = omega arith
  steps_left-step s t (sent {e = e} {tasks = tasks} a r room) =
      omega (arith, length-append tasks (e ∷ []))
  steps_left-step s t (taken room) = omega arith
  steps_left-step s t (finished e before after) =
      omega (arith, length-append before (e ∷ after), length-append before after)

  -- A pool that is not done can take a step.
  can_step :
      (todo tasks running : List Entry) (restored : List ℕ)
      → 0 < opts.jobs
      → Ready (record { todo = todo; tasks = tasks; running = running; restored = restored })
      → IsDone (record { todo = todo; tasks = tasks; running = running; restored = restored })
        ⊎ ((t : Pool) × Step opts meta
              (record { todo = todo; tasks = tasks; running = running; restored = restored })
              t)
  can_step todo tasks (e ∷ running) restored some_job h = inr (_, finished e [] running)
  can_step todo (e ∷ tasks) [] restored some_job h = inr (_, taken some_job)
  can_step [] [] [] restored some_job h = inl (refl, refl, refl)
  can_step (e ∷ todo) [] [] restored some_job (skip, p, w, r) = inr (_, skipped p)
  can_step (e ∷ todo) [] [] restored some_job (wait_only, p, w, r) =
      inr
        (_, waited p (Elem-restored restored (awaited opts meta e) (λ d m. in_restored d (w d m))))
    where
      in_restored : (d : ℕ) → Elem d [] ⊎ (Elem d [] ⊎ Elem d restored) → Elem d restored
      in_restored d (inl h) = absurd h
      in_restored d (inr (inl h)) = absurd h
      in_restored d (inr (inr h)) = h
  can_step (e ∷ todo) [] [] restored some_job (wait_and_send, p, w, r) = inr (
    _,
    sent p (Elem-restored restored (awaited opts meta e) (λ d m. in_restored d (w d m))) some_job,
  )
    where
      in_restored : (d : ℕ) → Elem d [] ⊎ (Elem d [] ⊎ Elem d restored) → Elem d restored
      in_restored d (inl h) = absurd h
      in_restored d (inr (inl h)) = absurd h
      in_restored d (inr (inr h)) = h

  -- A task that is to be sent is sent, or its entry is still to come.
  abbrev ToCome : Entry → Pool → Type 0
  ToCome e s = Elem e s.todo ⊎ IsSent s e.dump_id

  ToCome-step :
      (e : Entry)
      → action opts meta e ≡ ok wait_and_send
      → (s t : Pool) → Step opts meta s t
      → ToCome e s
      → ToCome e t
  ToCome-step e sends s t x (inr h) = inr (IsSent-on s t x e.dump_id h)
  ToCome-step e sends s t (skipped {e = f} a) (inl (inl p)) = absurd (
      differ (
        same_action f skip wait_and_send a
          (subst (λ y. action opts meta y ≡ ok wait_and_send) p sends)))
    where
      differ : skip ≡ wait_and_send → ⊥
      differ h = cc
  ToCome-step e sends s t (skipped a) (inl (inr m)) = inl m
  ToCome-step e sends s t (waited {e = f} a r) (inl (inl p)) = absurd (
      differ (
        same_action f wait_only wait_and_send a
          (subst (λ y. action opts meta y ≡ ok wait_and_send) p sends)))
    where
      differ : wait_only ≡ wait_and_send → ⊥
      differ h = cc
  ToCome-step e sends s t (waited a r) (inl (inr m)) = inl m
  ToCome-step e sends s t (sent {e = f} {tasks = tasks} a r room) (inl (inl p)) =
      inr (inl (Elem-ids-right e.dump_id tasks (f ∷ []) (inl (ap (λ y. y.dump_id) p))))
  ToCome-step e sends s t (sent a r room) (inl (inr m)) = inl m
  ToCome-step e sends s t (taken room) (inl m) = inl m
  ToCome-step e sends s t (finished f before after) (inl m) = inl m

  -- What a run leaves.
  pub record Outcome (n : ℕ) (s t : Pool) : Type 0 where
    pub bounded : n + steps_left t ≤ steps_left s
    pub goes_on : IsDone t ⊎ ((u : Pool) × Step opts meta t u)
    pub restores :
        (e : Entry)
        → Elem e s.todo
        → action opts meta e ≡ ok wait_and_send
        → IsDone t
        → Elem e.dump_id t.restored

  Run-Ready : (n : ℕ) (s t : Pool) → Run opts meta n s t → Ready s → Ready t
  Run-Ready zero s t rest h = h
  Run-Ready (suc n) s t (step {t = u} x run) h = Run-Ready n u t run (Ready-step s u x h)

  Run-steps_left : (n : ℕ) (s t : Pool) → Run opts meta n s t → n + steps_left t ≤ steps_left s
  Run-steps_left zero s t rest = omega arith
  Run-steps_left (suc n) s t (step {t = u} x run) =
      omega (arith, Run-steps_left n u t run, steps_left-step s u x)

  Run-ToCome :
      (e : Entry)
      → action opts meta e ≡ ok wait_and_send
      → (n : ℕ) (s t : Pool) → Run opts meta n s t
      → ToCome e s
      → ToCome e t
  Run-ToCome e sends zero s t rest h = h
  Run-ToCome e sends (suc n) s t (step {t = u} x run) h =
      Run-ToCome e sends n u t run (ToCome-step e sends s u x h)

  sent_when_done : (e : Entry) (t : Pool) → ToCome e t → IsDone t → Elem e.dump_id t.restored
  sent_when_done e t (inl h) (p, q, r) = absurd (subst (λ es. Elem e es) p h)
  sent_when_done e t (inr (inl h)) (p, q, r) = absurd (subst (λ es. Elem e.dump_id (ids es)) q h)
  sent_when_done e t (inr (inr (inl h))) (p, q, r) =
      absurd (subst (λ es. Elem e.dump_id (ids es)) r h)
  sent_when_done e t (inr (inr (inr h))) done = h

  -- With at least one job, and entries whose action is known and that each wait only for
  -- identifiers that were sent or are sent by an entry before them, a run of taskPusher and the
  -- workers in which no task fails has at most as many steps as a bound that falls with each step;
  -- it goes on unless nothing is left to do; and then every entry that is to be sent is restored.
  pub Run-Outcome :
      (n : ℕ) (s t : Pool)
      → 0 < opts.jobs
      → IsReady s.todo (IsSent s)
      → Run opts meta n s t
      → Outcome n s t
  Run-Outcome n s t some_job ready run = record {
    bounded = Run-steps_left n s t run;
    goes_on = can_step t.todo t.tasks t.running t.restored some_job (Run-Ready n s t run ready);
    restores = λ e h sends done. sent_when_done e t (Run-ToCome e sends n s t run (inl h)) done;
  }
