-- ===== src/Retention/Dumps.antt =====
-- delete/domains.go and getSortedBackupWithStatuses of delete/delete_dump.go.
use greenmask.Common.{
  ℕ, Bytes, Option, none, some, List, [], ◌∷◌, ◌++◌, Bool, true, false, Result, ok, err, panicked,
  stuck, on_ok, if◌then◌else◌, ltb,
}
use greenmask.Retention.Status.{
  Directory, DumpStatus, Metadata, done, failed, unknown_or_failed, in_progress,
  get_dump_status_and_metadata,
}

-- A date is `none` where Go has the zero time.
pub record Dump : Type 0 where
  pub dump_id : Bytes
  pub date : Option ℕ
  pub status : DumpStatus
  pub database : Bytes

pub record StorageResponse : Type 0 where
  pub valid : List Dump
  pub failed_dumps : List Dump
  pub unknown : List Dump

-- cmp.Compare on strings, as the test `a < b`.
unfoldable pub bytes_ltb : Bytes → Bytes → Bool
bytes_ltb a [] = false
bytes_ltb [] (y ∷ b) = true
bytes_ltb (x ∷ a) (y ∷ b) = if ltb x y then true else if ltb y x then false else bytes_ltb a b

-- slices.SortFunc with `cmp.Compare(b.DumpId, a.DumpId)`: the greatest id first. The names of
-- directories are distinct, so that the order of equal ids does not matter.
unfoldable pub insert : Dump → List Dump → List Dump
insert d [] = d ∷ []
insert d (e ∷ dumps) =
    let rest = insert d dumps in if bytes_ltb d.dump_id e.dump_id then e ∷ rest else d ∷ e ∷ dumps

unfoldable pub sort : List Dump → List Dump
unfolding insert
sort [] = []
sort (d ∷ dumps) = insert d (sort dumps)

abbrev pub no_dumps : StorageResponse
no_dumps = record { valid = []; failed_dumps = []; unknown = [] }

-- The body of the loop: the dump of a directory, appended to the list of its status. A finished dump
-- without metadata would be a nil pointer.
unfoldable pub classify :
    Bytes → StorageResponse → DumpStatus × Option Metadata → Result StorageResponse
classify id sr (done, some md) = ok record sr {
  valid =
      sr.valid
      ++ record { dump_id = id; date = some md.started_at; status = done; database = md.db_name }
        ∷ [];
}
classify id sr (done, none) = panicked
classify id sr (failed, md) = ok record sr {
  failed_dumps =
      sr.failed_dumps ++ record { dump_id = id; date = none; status = failed; database = [] } ∷ [];
}
classify id sr (unknown_or_failed, md) = ok record sr {
  unknown =
      sr.unknown
      ++ record { dump_id = id; date = none; status = unknown_or_failed; database = [] } ∷ [];
}
classify id sr (in_progress, md) = ok sr

-- An error of the status is logged, and leaves an empty status, which is in no list.
unfoldable pub add_backup :
    Bytes → StorageResponse → Result (DumpStatus × Option Metadata) → Result StorageResponse
unfolding classify
add_backup id sr (ok answer) = classify id sr answer
add_backup id sr (err e) = ok sr
add_backup id sr panicked = panicked
add_backup id sr stuck = stuck

module _ (decode_json : Bytes → Result Metadata) where
  unfoldable pub collect : ℕ → List Directory → StorageResponse → Result StorageResponse
  unfolding add_backup
  collect now [] sr = ok sr
  collect now (st ∷ backups) sr =
      on_ok (add_backup st.dirname sr (get_dump_status_and_metadata decode_json now st))
        (collect now backups)

  abbrev pub sorted : StorageResponse → StorageResponse
  sorted sr = record {
    valid = sort sr.valid;
    failed_dumps = sort sr.failed_dumps;
    unknown = sort sr.unknown;
  }

  unfoldable pub get_sorted_backup_with_statuses :
      ℕ → Result (List Directory) → Result StorageResponse
  unfolding collect sort
  get_sorted_backup_with_statuses now listed =
      on_ok listed (λ backups. on_ok (collect now backups no_dumps) (λ sr. ok (sorted sr)))
