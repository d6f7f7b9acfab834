-- ===== src/Retention/Kept.antt =====
-- Which dumps each way to delete deletes, on a storage that records the ids in turn.
use greenmask.Common.{
  ℕ, zero, suc, ◌+◌, ◌-◌, ◌≡◌, ◌≢◌, refl, ap, ◌∙◌, Bytes, List, [], ◌∷◌, ◌++◌, append_assoc,
  append-nil, Bool, true, false, Bool-cases, inl, inr, Result, ok, Exec, pure, if◌then◌else◌, ltb,
  leb, none, some, not, sym, ltb→lt, length, drop, All, Option, ◌==◌, ==_iff, arith,
}
use greenmask.Retention.Status.{Directory, Metadata, done}
use greenmask.Retention.Dumps.{Dump, StorageResponse, get_sorted_backup_with_statuses}
use greenmask.Retention.Order.{
  IsSplit, IsDescending-IsSplit, get_sorted_backup_with_statuses-IsOrdered,
}
use greenmask.Retention.Delete.{
  delete_dump_by_id, delete_expired, delete_where, delete_from, any_dump, is_before, sorted_dumps,
  prune_failed_dumps, delete_before_date, retain_for_dumps, retain_recent_n_dumps, is_expired,
}

-- A DeleteAll that never fails; the state is the ids that it was given.
abbrev pub record_id : Bytes → Exec (List Bytes) (Unit {0})
record_id id ids = ok (tt, ids ++ id ∷ [])

abbrev pub ids_of : List Dump → List Bytes
ids_of [] = []
ids_of (d ∷ dumps) = d.dump_id ∷ ids_of dumps

abbrev pub chosen : (Dump → Bool) → List Dump → List Dump
chosen selected [] = []
chosen selected (d ∷ dumps) =
    if selected d then d ∷ chosen selected dumps else chosen selected dumps

abbrev pub IsNamed : Dump → Type 0
IsNamed d = length d.dump_id ≢ 0

delete_one :
    (d : Dump) (ids : List Bytes)
    → IsNamed d
    → delete_dump_by_id record_id false d ids ≡ ok (tt, ids ++ d.dump_id ∷ [])
unfolding delete_dump_by_id
delete_one d ids named = elim (Bool-cases (length d.dump_id == 0)) [
  | inl e ↦ absurd (named ((==_iff (length d.dump_id) 0).0 e))
  | inr e ↦ rw e refl
]

one_more :
    (ids : List Bytes) (id : Bytes) (more : List Bytes)
    → (ids ++ id ∷ []) ++ more ≡ ids ++ id ∷ more
one_more ids id more = append_assoc ids (id ∷ []) more

delete_where-chosen :
    (selected : Dump → Bool) (dumps : List Dump) (ids : List Bytes)
    → All IsNamed dumps
    → delete_where record_id false selected dumps ids
      ≡ ok (tt, ids ++ ids_of (chosen selected dumps))
unfolding delete_where
delete_where-chosen selected [] ids h = rw append-nil
delete_where-chosen selected (d ∷ dumps) ids (named, h) = elim (Bool-cases (selected d)) [
  | inl e ↦
      rw (e, delete_one d ids named)
        (delete_where-chosen selected dumps (ids ++ d.dump_id ∷ []) h
          ∙ ap (λ l. ok (tt, l)) (one_more ids d.dump_id _))
  | inr e ↦ rw e (delete_where-chosen selected dumps ids h)
]

drop-nil : (n : ℕ) → drop {A = Dump} n [] ≡ []
drop-nil zero = refl
drop-nil (suc n) = refl

delete_from-drop :
    (kept idx : ℕ) (dumps : List Dump) (ids : List Bytes)
    → All IsNamed dumps
    → delete_from record_id false kept idx dumps ids
      ≡ ok (tt, ids ++ ids_of (drop (kept - idx) dumps))
unfolding delete_from
delete_from-drop kept idx [] ids h = rw (drop-nil (kept - idx), append-nil) refl
delete_from-drop kept idx (d ∷ dumps) ids (named, h) = elim (Bool-cases (ltb idx kept)) [
  | inl e ↦
      let more : kept - idx ≡ suc (kept - (idx + 1)) = omega (arith, ltb→lt idx kept e) in
      rw (e, more) (delete_from-drop kept (idx + 1) dumps ids h)
  | inr e ↦
      let none_left : kept - idx ≡ 0 = ground arith in
      let still : kept - (idx + 1) ≡ 0 = ground arith in
      rw (e, none_left, delete_one d ids named)
        ((rw still at (delete_from-drop kept (idx + 1) dumps (ids ++ d.dump_id ∷ []) h))
          ∙ ap (λ l. ok (tt, l)) (one_more ids d.dump_id _))
]

-- The dumps that are as old as the duration when the clock is read for them.
abbrev pub older_than : (ℕ → ℕ) → ℕ → ℕ → List Dump → List Dump
older_than clock dur idx [] = []
older_than clock dur idx (d ∷ dumps) =
    let rest = older_than clock dur (idx + 1) dumps in
    elim d.date [ none ↦ d ∷ rest | some t ↦ if leb (t + dur) (clock idx) then d ∷ rest else rest ]

-- The dumps of a date before the given one; a dump without a date counts as one of them.
abbrev pub earlier_than : ℕ → List Dump → List Dump
earlier_than dt [] = []
earlier_than dt (d ∷ dumps) =
    let rest = earlier_than dt dumps in
    elim d.date [ none ↦ d ∷ rest | some t ↦ if leb (t + 1) dt then d ∷ rest else rest ]

not-ltb : (a b : ℕ) → not (ltb a b) ≡ leb b a
not-ltb a b = ground arith

ltb-leb : (a b : ℕ) → ltb a b ≡ leb (a + 1) b
ltb-leb a b = ground arith

-- The two ways to write a test of a date.
earlier_date :
    (dt : ℕ) (date : Option ℕ) (gone rest : List Dump)
    → (if (elim date [ none ↦ true | some t ↦ ltb t dt ]) then gone else rest)
      ≡ elim date [ none ↦ gone | some t ↦ if leb (t + 1) dt then gone else rest ]
earlier_date dt none gone rest = refl
earlier_date dt (some t) gone rest = rw (ltb-leb t dt) refl

older_date :
    (now dur : ℕ) (date : Option ℕ) (gone rest : List Dump)
    → elim date [ none ↦ gone | some t ↦ if leb (t + dur) now then gone else rest ]
      ≡ (if (elim date [ none ↦ true | some t ↦ not (ltb now (t + dur)) ]) then gone else rest)
older_date now dur none gone rest = refl
older_date now dur (some t) gone rest = rw (not-ltb now (t + dur)) refl

chosen-earlier_than :
    (dt : ℕ) (dumps : List Dump) → chosen (is_before dt) dumps ≡ earlier_than dt dumps
chosen-earlier_than dt [] = refl
chosen-earlier_than dt (d ∷ dumps) =
    ap (λ rest. if is_before dt d then d ∷ rest else rest) (chosen-earlier_than dt dumps)
    ∙ earlier_date dt d.date _ _

older_than-first :
    (clock : ℕ → ℕ) (dur idx : ℕ) (d : Dump) (dumps : List Dump)
    → older_than clock dur idx (d ∷ dumps) ≡ (
        if is_expired (clock idx) dur d
        then d ∷ older_than clock dur (idx + 1) dumps
        else older_than clock dur (idx + 1) dumps)
older_than-first clock dur idx d dumps = older_date (clock idx) dur d.date _ _

delete_expired-older_than :
    (clock : ℕ → ℕ) (dur idx : ℕ) (dumps : List Dump) (ids : List Bytes)
    → All IsNamed dumps
    → delete_expired record_id false clock dur idx dumps ids
      ≡ ok (tt, ids ++ ids_of (older_than clock dur idx dumps))
unfolding delete_expired
delete_expired-older_than clock dur idx [] ids h = rw append-nil
delete_expired-older_than clock dur idx (d ∷ dumps) ids (named, h) =
    elim (Bool-cases (is_expired (clock idx) dur d)) [
      | inl e ↦
          rw (older_than-first clock dur idx d dumps, e, delete_one d ids named)
            (delete_expired-older_than clock dur (idx + 1) dumps (ids ++ d.dump_id ∷ []) h
              ∙ ap (λ l. ok (tt, l)) (one_more ids d.dump_id _))
      | inr e ↦
          rw (older_than-first clock dur idx d dumps, e)
            (delete_expired-older_than clock dur (idx + 1) dumps ids h)
    ]

module _ (list_dir : List Bytes → Result (List Directory)) (decode_json : Bytes → Result Metadata)
    (now : ℕ) (ids : List Bytes) (sr : StorageResponse)
    (found : get_sorted_backup_with_statuses decode_json now (list_dir ids) ≡ ok sr) where
  -- Retaining the most recent dumps deletes the dumps of the listed finished ones behind the given
  -- number, in their order, and nothing else, when the storage deletes and every id has a
  -- character; the listed ones are finished, and the id of a deleted one is at most that of a kept
  -- one, byte by byte.
  pub retain_recent_n_dumps-deletes :
      (kept : ℕ)
      → All IsNamed sr.valid
      → (retain_recent_n_dumps record_id list_dir decode_json now false kept ids
          ≡ ok (tt, ids ++ ids_of (drop kept sr.valid)))
        × All (λ d. d.status ≡ done) sr.valid
        × IsSplit kept sr.valid
  unfolding retain_recent_n_dumps sorted_dumps
  retain_recent_n_dumps-deletes kept named =
      let same : kept - 0 ≡ kept = omega arith in
      let (classified, ordered) =
        get_sorted_backup_with_statuses-IsOrdered decode_json now (list_dir ids) sr found in
      (
        rw found (rw same at (delete_from-drop kept 0 sr.valid ids named)),
        classified.0,
        IsDescending-IsSplit kept sr.valid ordered.0,
      )

  -- Retaining the dumps of a duration deletes the finished dumps whose date and the duration
  -- together are at most what the clock reads for the dump, and deleting before a date those of an
  -- earlier one, in the order of the list, and nothing else, when the storage deletes and every id
  -- has a character; a dump without a date counts as old.
  pub by_date-deletes :
      (clock : ℕ → ℕ) (dur dt : ℕ)
      → All IsNamed sr.valid
      → (retain_for_dumps record_id list_dir decode_json now false clock dur ids
          ≡ ok (tt, ids ++ ids_of (older_than clock dur 0 sr.valid)))
        × (delete_before_date record_id list_dir decode_json now false (ok dt) ids
            ≡ ok (tt, ids ++ ids_of (earlier_than dt sr.valid)))
  unfolding retain_for_dumps delete_before_date sorted_dumps
  by_date-deletes clock dur dt named = (
    rw found (delete_expired-older_than clock dur 0 sr.valid ids named),
    rw (found, sym (chosen-earlier_than dt sr.valid))
        (delete_where-chosen (is_before dt) sr.valid ids named),
  )

chosen-any_dump : (dumps : List Dump) → chosen any_dump dumps ≡ dumps
chosen-any_dump [] = refl
chosen-any_dump (d ∷ dumps) = ap (λ l. d ∷ l) (chosen-any_dump dumps)

-- Pruning deletes the failed dumps and, only when it is told to, those of unknown status behind
-- them, and nothing else, when the storage deletes and every id has a character.
pub prune_failed_dumps-deletes :
    (list_dir : List Bytes → Result (List Directory)) (decode_json : Bytes → Result Metadata)
    (now : ℕ) (ids : List Bytes) (sr : StorageResponse) (prune_unsafe : Bool)
    → get_sorted_backup_with_statuses decode_json now (list_dir ids) ≡ ok sr
    → All IsNamed sr.failed_dumps
    → All IsNamed sr.unknown
    → prune_failed_dumps record_id list_dir decode_json now false prune_unsafe ids
      ≡ ok (tt, (ids ++ ids_of sr.failed_dumps) ++ (if prune_unsafe then ids_of sr.unknown else []))
unfolding prune_failed_dumps sorted_dumps
prune_failed_dumps-deletes list_dir decode_json now ids sr prune_unsafe found f u =
    let failed_gone = rw chosen-any_dump at (delete_where-chosen any_dump sr.failed_dumps ids f) in
    let unknown_gone =
      rw chosen-any_dump at
        (delete_where-chosen any_dump sr.unknown (ids ++ ids_of sr.failed_dumps) u) in
    rw (found, failed_gone) (with_unsafe prune_unsafe unknown_gone)
  where
    with_unsafe :
        (unsafe : Bool)
        → delete_where record_id false any_dump sr.unknown (ids ++ ids_of sr.failed_dumps)
          ≡ ok (tt, (ids ++ ids_of sr.failed_dumps) ++ ids_of sr.unknown)
        → (if unsafe then delete_where record_id false any_dump sr.unknown else pure tt)
            (ids ++ ids_of sr.failed_dumps)
          ≡ ok (tt, (ids ++ ids_of sr.failed_dumps) ++ (if unsafe then ids_of sr.unknown else []))
    with_unsafe true e = e
    with_unsafe false e = rw append-nil
