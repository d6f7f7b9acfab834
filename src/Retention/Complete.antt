-- ===== src/Retention/Complete.antt =====
-- Collecting and sorting the dumps loses and repeats none.
use greenmask.Common.{
  ℕ, ◌+◌, ◌≡◌, refl, ◌∙◌, Bytes, List, [], ◌∷◌, Bool, Bool-cases, inl, inr, Result, ok, err,
  panicked, stuck, on_ok, true, false, not, Option, none, some, ◌++◌, append_assoc, append-nil, All,
  bytes_eq, codes, length, ltb, ◌*◌, ◌==◌, if◌then◌else◌, arith,
}
use greenmask.Retention.Status.{
  Directory, DumpStatus, Metadata, done, failed, unknown_or_failed, in_progress, wrapping,
  done_with, heart_beat_write_interval, failed_timeout, is_file_not_found,
  get_dump_status_and_metadata,
}
use greenmask.Retention.Dumps.{
  Dump, StorageResponse, bytes_ltb, insert, sort, classify, add_backup, collect, sorted, no_dumps,
  get_sorted_backup_with_statuses,
}

-- How many of the dumps a test selects.
abbrev pub count : (Dump → Bool) → List Dump → ℕ
count selected [] = 0
count selected (d ∷ dumps) = if selected d then 1 + count selected dumps else count selected dumps

-- The same dumps, each as often, in any order.
abbrev pub HasSameDumps : List Dump → List Dump → Type 0
HasSameDumps dumps others = (selected : Dump → Bool) → count selected dumps ≡ count selected others

count-swap :
    (selected : Dump → Bool) (d e : Dump) (dumps : List Dump)
    → count selected (e ∷ d ∷ dumps) ≡ count selected (d ∷ e ∷ dumps)
count-swap selected d e dumps = ground arith

count-cons :
    (selected : Dump → Bool) (d : Dump) (dumps others : List Dump)
    → count selected dumps ≡ count selected others
    → count selected (d ∷ dumps) ≡ count selected (d ∷ others)
count-cons selected d dumps others h = rw h refl

count-insert :
    (selected : Dump → Bool) (d : Dump) (dumps : List Dump)
    → count selected (insert d dumps) ≡ count selected (d ∷ dumps)
unfolding insert
count-insert selected d [] = refl
count-insert selected d (e ∷ dumps) = elim (Bool-cases (bytes_ltb d.dump_id e.dump_id)) [
  | inl t ↦ rw t (
      count-cons selected e (insert d dumps) (d ∷ dumps) (count-insert selected d dumps)
      ∙ count-swap selected d e dumps)
  | inr t ↦ rw t refl
]

count-sort : (dumps : List Dump) → HasSameDumps (sort dumps) dumps
unfolding sort
count-sort [] selected = refl
count-sort (d ∷ dumps) selected =
    count-insert selected d (sort dumps)
    ∙ count-cons selected d (sort dumps) dumps (count-sort dumps selected)

abbrev pub Answer : Type 0
Answer = Result (DumpStatus × Option Metadata)

-- Neither a panic nor a loop without end.
abbrev pub IsAnswered : Answer → Type 0
IsAnswered (ok answer) = Unit
IsAnswered (err e) = Unit
IsAnswered panicked = ⊥
IsAnswered stuck = ⊥

-- The dump of a directory, by the answer for its status.
abbrev pub finished_dump : Bytes → Answer → List Dump
finished_dump id (ok (done, some md)) =
    record { dump_id = id; date = some md.started_at; status = done; database = md.db_name } ∷ []
finished_dump id _ = []

abbrev pub failed_dump : Bytes → Answer → List Dump
failed_dump id (ok (failed, md)) =
    record { dump_id = id; date = none; status = failed; database = [] } ∷ []
failed_dump id _ = []

abbrev pub unknown_dump : Bytes → Answer → List Dump
unknown_dump id (ok (unknown_or_failed, md)) =
    record { dump_id = id; date = none; status = unknown_or_failed; database = [] } ∷ []
unknown_dump id _ = []

-- No finished dump is without metadata.
HasMetadata : Answer → Type 0
HasMetadata (ok (done, none)) = ⊥
HasMetadata _ = Unit

-- The response with more dumps behind each list.
abbrev extend : StorageResponse → List Dump → List Dump → List Dump → StorageResponse
extend sr valid failed_dumps unknown = record {
  valid = sr.valid ++ valid;
  failed_dumps = sr.failed_dumps ++ failed_dumps;
  unknown = sr.unknown ++ unknown;
}

abbrev extend_by : Bytes → StorageResponse → Answer → StorageResponse
extend_by id sr r = extend sr (finished_dump id r) (failed_dump id r) (unknown_dump id r)

no_more : (dumps : List Dump) → dumps ≡ dumps ++ []
no_more dumps = rw append-nil

abbrev response : List Dump → List Dump → List Dump → StorageResponse
response valid failed_dumps unknown = record {
  valid = valid;
  failed_dumps = failed_dumps;
  unknown = unknown;
}

same_lists :
    {a a' b b' c c' : List Dump}
    → a ≡ a'
    → b ≡ b'
    → c ≡ c'
    → ok (response a b c) ≡ ok (response a' b' c')
same_lists p q r = rw (p, q, r) refl

add_backup-extend_by :
    (id : Bytes) (sr : StorageResponse) (r : Answer)
    → IsAnswered r
    → HasMetadata r
    → add_backup id sr r ≡ ok (extend_by id sr r)
unfolding add_backup classify HasMetadata
add_backup-extend_by id sr (ok (done, some md)) a h =
    same_lists refl (no_more sr.failed_dumps) (no_more sr.unknown)
add_backup-extend_by id sr (ok (done, none)) a h = absurd h
add_backup-extend_by id sr (ok (failed, md)) a h =
    same_lists (no_more sr.valid) refl (no_more sr.unknown)
add_backup-extend_by id sr (ok (unknown_or_failed, md)) a h =
    same_lists (no_more sr.valid) (no_more sr.failed_dumps) refl
add_backup-extend_by id sr (ok (in_progress, md)) a h =
    same_lists (no_more sr.valid) (no_more sr.failed_dumps) (no_more sr.unknown)
add_backup-extend_by id sr (err e) a h =
    same_lists (no_more sr.valid) (no_more sr.failed_dumps) (no_more sr.unknown)
add_backup-extend_by id sr panicked a h = absurd a
add_backup-extend_by id sr stuck a h = absurd a

HasMetadata-on_ok :
    {A : Type 0} (r : Result A) (k : A → Answer)
    → ((a : A) → HasMetadata (k a))
    → HasMetadata (on_ok r k)
unfolding HasMetadata
HasMetadata-on_ok (ok a) k h = h a
HasMetadata-on_ok (err e) k h = tt
HasMetadata-on_ok panicked k h = tt
HasMetadata-on_ok stuck k h = tt

HasMetadata-if :
    (b : Bool) (r r' : Answer) → HasMetadata r → HasMetadata r' → HasMetadata (if b then r else r')
HasMetadata-if true r r' h h' = h
HasMetadata-if false r r' h h' = h'

module _ (decode_json : Bytes → Result Metadata) (now : ℕ) where
  -- The dumps of the directories, in their order.
  abbrev pub dumps_of : (Bytes → Answer → List Dump) → List Directory → List Dump
  dumps_of dump_of [] = []
  dumps_of dump_of (st ∷ backups) =
      dump_of st.dirname (get_dump_status_and_metadata decode_json now st)
      ++ dumps_of dump_of backups

  done_with-HasMetadata : (r : Result Metadata) → HasMetadata (done_with decode_json r)
  unfolding HasMetadata
  done_with-HasMetadata (ok md) = tt
  done_with-HasMetadata (err e) = HasMetadata-if (is_file_not_found e) _ _ tt tt
  done_with-HasMetadata panicked = tt
  done_with-HasMetadata stuck = tt

  get_dump_status_and_metadata-HasMetadata :
      (st : Directory) → HasMetadata (get_dump_status_and_metadata decode_json now st)
  unfolding get_dump_status_and_metadata HasMetadata
  get_dump_status_and_metadata-HasMetadata st = HasMetadata-on_ok st.stat_heart_beat _ λ info.
      HasMetadata-if (not info.exist) _ _
        (HasMetadata-on_ok st.stat_metadata _
          λ stat. HasMetadata-if (not stat.exist) _ _ tt (done_with-HasMetadata _))
        (HasMetadata-on_ok (wrapping "failed to get heart beat file: %w" st.get_heart_beat) _ λ f.
          HasMetadata-on_ok (wrapping "failed to read heart beat file: %w" f) _ λ content.
            HasMetadata-if (length content == 0) _ _ tt (
              HasMetadata-if (bytes_eq content (codes "done")) _ _ (done_with-HasMetadata _) (
                HasMetadata-if (bytes_eq content (codes "in-progress")) _
                  (ok (unknown_or_failed, none))
                  (HasMetadata-if
                    (ltb (info.last_modified + heart_beat_write_interval * failed_timeout) now)
                    (ok (failed, none)) (ok (in_progress, none)) tt tt)
                  tt)))

  collect-dumps_of :
      (backups : List Directory) (sr : StorageResponse)
      → All (λ st. IsAnswered (get_dump_status_and_metadata decode_json now st)) backups
      → collect decode_json now backups sr
        ≡ ok (
            extend sr
              (dumps_of finished_dump backups)
              (dumps_of failed_dump backups)
              (dumps_of unknown_dump backups))
  unfolding collect
  collect-dumps_of [] sr h =
      same_lists (no_more sr.valid) (no_more sr.failed_dumps) (no_more sr.unknown)
  collect-dumps_of (st ∷ backups) sr (answered, h) =
      let r = get_dump_status_and_metadata decode_json now st in
      rw
        (
          add_backup-extend_by st.dirname sr r answered
              (get_dump_status_and_metadata-HasMetadata st),
          collect-dumps_of backups (extend_by st.dirname sr r) h,
        )
        (same_lists (append_assoc sr.valid _ _) (append_assoc sr.failed_dumps _ _)
          (append_assoc sr.unknown _ _))

  -- When the status of each directory is answered, be it with an error, getSortedBackupWithStatuses
  -- returns lists with the same dumps, each as often, as the directories with a finished dump, a
  -- failed dump and a dump of unknown status in turn.
  pub get_sorted_backup_with_statuses-HasSameDumps :
      (backups : List Directory)
      → All (λ st. IsAnswered (get_dump_status_and_metadata decode_json now st)) backups
      → (sr : StorageResponse) × (get_sorted_backup_with_statuses decode_json now (ok backups)
          ≡ ok sr)
        × HasSameDumps sr.valid (dumps_of finished_dump backups)
        × HasSameDumps sr.failed_dumps (dumps_of failed_dump backups)
        × HasSameDumps sr.unknown (dumps_of unknown_dump backups)
  unfolding get_sorted_backup_with_statuses
  get_sorted_backup_with_statuses-HasSameDumps backups h =
      let collected =
        extend no_dumps (dumps_of finished_dump backups) (dumps_of failed_dump backups)
          (dumps_of unknown_dump backups) in
      (
        sorted decode_json collected,
        rw (collect-dumps_of backups no_dumps h) refl,
        count-sort collected.valid,
        count-sort collected.failed_dumps,
        count-sort collected.unknown,
      )
