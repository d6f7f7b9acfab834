-- ===== src/Retention/Delete.antt =====
-- delete/delete_dump.go: the ways to delete. `S` is the state of the storage, and its ListDir and
-- DeleteAll are parameters, as are the clock and the parsers of dates and durations.
use greenmask.Common.{
  ℕ, ◌+◌, Bytes, bytes_eq, none, some, List, [], ◌∷◌, Bool, true, false, not, ◌||◌, Result, Exec,
  pure, raise, panic, label, lift, get_state, ◌>>=◌, ◌>>◌, dump_not_found, if◌then◌else◌, ltb,
  length, ◌==◌,
}
use greenmask.Retention.Status.{Directory, Metadata}
use greenmask.Retention.Dumps.{Dump, StorageResponse, get_sorted_backup_with_statuses}

abbrev pub any_dump : Dump → Bool
any_dump d = true

-- `d.Date.Before(dt)`, where the zero time is before every date.
abbrev pub is_before : ℕ → Dump → Bool
is_before dt d = elim d.date [ none ↦ true | some t ↦ ltb t dt ]

-- `time.Since(d.Date) < dur` keeps the dump; the zero time is longer ago than any duration. Times and
-- durations are nanoseconds.
abbrev pub is_expired : ℕ → ℕ → Dump → Bool
is_expired now dur d = elim d.date [ none ↦ true | some t ↦ not (ltb now (t + dur)) ]

module _ {S : Type 0} (delete_all : Bytes → Exec S (Unit {0})) where
  -- deleteDumpById
  unfoldable pub delete_dump_by_id : Bool → Dump → Exec S (Unit {0})
  delete_dump_by_id dry_run d =
      if length d.dump_id == 0 then panic else if dry_run then pure tt else delete_all d.dump_id

  -- A loop over dumps that deletes those that a test selects.
  unfoldable pub delete_where : Bool → (Dump → Bool) → List Dump → Exec S (Unit {0})
  unfolding delete_dump_by_id
  delete_where dry_run selected [] = pure tt
  delete_where dry_run selected (d ∷ dumps) = do
    (if selected d
        then label "could not delete dump %s: %s" (delete_dump_by_id dry_run d)
        else pure tt)
    delete_where dry_run selected dumps

  -- The loop of retainRecentNDumps from an index on.
  unfoldable pub delete_from : Bool → ℕ → ℕ → List Dump → Exec S (Unit {0})
  unfolding delete_dump_by_id
  delete_from dry_run kept idx [] = pure tt
  delete_from dry_run kept idx (d ∷ dumps) = do
    (if ltb idx kept
        then pure tt
        else label "could not delete dump %s: %s" (delete_dump_by_id dry_run d))
    delete_from dry_run kept (idx + 1) dumps

  -- The loop of retainForDumps, which reads the clock for each dump: `clock` is what it reads at each
  -- index.
  unfoldable pub delete_expired : Bool → (ℕ → ℕ) → ℕ → ℕ → List Dump → Exec S (Unit {0})
  unfolding delete_dump_by_id
  delete_expired dry_run clock dur idx [] = pure tt
  delete_expired dry_run clock dur idx (d ∷ dumps) = do
    (if is_expired (clock idx) dur d
        then label "could not delete dump %s: %s" (delete_dump_by_id dry_run d)
        else pure tt)
    delete_expired dry_run clock dur (idx + 1) dumps

  module _ (list_dir : S → Result (List Directory)) (decode_json : Bytes → Result Metadata)
      (now : ℕ) where
    unfoldable pub sorted_dumps : Exec S StorageResponse
    sorted_dumps = do
      s ← get_state
      label "could not get sorted dumps: %s"
          (lift (get_sorted_backup_with_statuses decode_json now (list_dir s)))

    unfoldable pub prune_failed_dumps : Bool → Bool → Exec S (Unit {0})
    unfolding delete_where sorted_dumps
    prune_failed_dumps dry_run prune_unsafe = do
      sr ← sorted_dumps
      delete_where dry_run any_dump sr.failed_dumps
      (if prune_unsafe then delete_where dry_run any_dump sr.unknown else pure tt)

    -- The date is parsed before the dumps are listed.
    unfoldable pub delete_before_date : Bool → Result ℕ → Exec S (Unit {0})
    unfolding delete_where sorted_dumps
    delete_before_date dry_run parsed = do
      dt ← label "could not parse --defore-date date: %s" (lift parsed)
      sr ← sorted_dumps
      delete_where dry_run (is_before dt) sr.valid

    unfoldable pub retain_for_dumps : Bool → (ℕ → ℕ) → ℕ → Exec S (Unit {0})
    unfolding delete_expired sorted_dumps
    retain_for_dumps dry_run clock dur = do
      sr ← sorted_dumps
      delete_expired dry_run clock dur 0 sr.valid

    unfoldable pub retain_recent_n_dumps : Bool → ℕ → Exec S (Unit {0})
    unfolding delete_from sorted_dumps
    retain_recent_n_dumps dry_run kept = do sr ← sorted_dumps; delete_from dry_run kept 0 sr.valid

  abbrev pub has_dump : Bytes → List Directory → Bool
  has_dump id [] = false
  has_dump id (d ∷ dirs) = bytes_eq id d.dirname || has_dump id dirs

  -- An error of ListDir ends the process.
  unfoldable pub delete_dump : (S → Result (List Directory)) → Bytes → Exec S (Unit {0})
  delete_dump list_dir id = do
    s ← get_state
    dirs ← lift (list_dir s)
    (if not (has_dump id dirs)
        then raise dump_not_found
        else label "storage error: %s" (delete_all id))
