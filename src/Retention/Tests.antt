-- ===== src/Retention/Tests.antt =====
-- The theorems on retention at a storage of a legacy dump, a failed one, one in progress, and finished ones.
use greenmask.Common.{
  ◌+◌, ◌≡◌, refl, Bytes, codes, none, some, List, [], ◌∷◌, ◌++◌, true, false, Result, ok, All,
  arith, if◌then◌else◌,
}
use greenmask.Retention.Status.{
  Directory, Metadata, done, failed, unknown_or_failed, get_dump_status_and_metadata,
}
use greenmask.Retention.Dumps.{bytes_ltb, StorageResponse, get_sorted_backup_with_statuses}
use greenmask.Retention.Delete.{
  prune_failed_dumps, delete_before_date, retain_for_dumps, retain_recent_n_dumps,
}
use greenmask.Retention.Order.{IsOrdered, IsSplit, get_sorted_backup_with_statuses-IsOrdered}
use greenmask.Retention.Complete.{
  HasSameDumps, IsAnswered, dumps_of, finished_dump, failed_dump, unknown_dump,
  get_sorted_backup_with_statuses-HasSameDumps,
}
use greenmask.Retention.Kept.{
  IsNamed, record_id, ids_of, retain_recent_n_dumps-deletes, by_date-deletes,
  prune_failed_dumps-deletes,
}
use greenmask.Retention.DryRun.{dry_run-keeps}

abbrev directory : Bytes → Bytes → Directory
directory id heart_beat = record {
  dirname = id;
  stat_heart_beat = ok (record { exist = true; last_modified = 1000 });
  stat_metadata = ok (record { exist = true; last_modified = 1000 });
  get_heart_beat = ok (ok heart_beat);
  get_metadata_json = ok id;
}

abbrev storage : List Directory
storage =
    directory (codes "10") (codes "done")
    ∷ directory (codes "20") (codes "in-progress")
    ∷ directory (codes "30") []
    ∷ directory (codes "40") (codes "done")
    ∷ directory (codes "50") (codes "?")
    ∷ []

abbrev list_storage : List Bytes → Result (List Directory)
list_storage ids = ok storage

abbrev json_of : Bytes → Result Metadata
json_of bytes = ok (record { started_at = 500; db_name = codes "demo" })

abbrev found_dumps : StorageResponse
found_dumps = record {
  valid =
      record { dump_id = codes "40"; date = some 500; status = done; database = codes "demo" }
      ∷ record { dump_id = codes "10"; date = some 500; status = done; database = codes "demo" }
      ∷ [];
  failed_dumps = record { dump_id = codes "30"; date = none; status = failed; database = [] } ∷ [];
  unknown =
      record { dump_id = codes "50"; date = none; status = unknown_or_failed; database = [] } ∷ [];
}

found : get_sorted_backup_with_statuses json_of 1500 (ok storage) ≡ ok found_dumps
unfolding get_sorted_backup_with_statuses get_dump_status_and_metadata bytes_ltb
found = refl

answered : All (λ st. IsAnswered (get_dump_status_and_metadata json_of 1500 st)) storage
unfolding get_dump_status_and_metadata
answered = (tt, (tt, (tt, (tt, (tt, tt)))))

get_sorted_backup_with_statuses-HasSameDumps_example :
    (sr : StorageResponse) × (get_sorted_backup_with_statuses json_of 1500 (ok storage) ≡ ok sr)
    × HasSameDumps sr.valid (dumps_of json_of 1500 finished_dump storage)
    × HasSameDumps sr.failed_dumps (dumps_of json_of 1500 failed_dump storage)
    × HasSameDumps sr.unknown (dumps_of json_of 1500 unknown_dump storage)
get_sorted_backup_with_statuses-HasSameDumps_example =
    get_sorted_backup_with_statuses-HasSameDumps json_of 1500 storage answered

valid-IsNamed : All IsNamed found_dumps.valid
valid-IsNamed = (omega arith, (omega arith, tt))

failed-IsNamed : All IsNamed found_dumps.failed_dumps
failed-IsNamed = (omega arith, tt)

unknown-IsNamed : All IsNamed found_dumps.unknown
unknown-IsNamed = (omega arith, tt)

get_sorted_backup_with_statuses-IsOrdered_example : IsOrdered json_of 1500 found_dumps
get_sorted_backup_with_statuses-IsOrdered_example =
    get_sorted_backup_with_statuses-IsOrdered json_of 1500 (ok storage) found_dumps found

retain_recent_n_dumps-deletes_example :
    (retain_recent_n_dumps record_id list_storage json_of 1500 false 1 []
      ≡ ok (tt, codes "10" ∷ []))
    × All (λ d. d.status ≡ done) found_dumps.valid
    × IsSplit 1 found_dumps.valid
retain_recent_n_dumps-deletes_example =
    retain_recent_n_dumps-deletes list_storage json_of 1500 [] found_dumps found 1 valid-IsNamed

by_date-deletes_example :
    (retain_for_dumps record_id list_storage json_of 1500 false (λ idx. 599 + idx) 100 []
      ≡ ok (tt, codes "10" ∷ []))
    × (delete_before_date record_id list_storage json_of 1500 false (ok 600) []
        ≡ ok (tt, codes "40" ∷ codes "10" ∷ []))
by_date-deletes_example =
    by_date-deletes list_storage json_of 1500 [] found_dumps found (λ idx. 599 + idx) 100 600
      valid-IsNamed

prune_failed_dumps-deletes_example :
    prune_failed_dumps record_id list_storage json_of 1500 false true []
    ≡ ok (
      tt,
      ([] ++ ids_of found_dumps.failed_dumps) ++ (if true then ids_of found_dumps.unknown else []),
    )
prune_failed_dumps-deletes_example =
    prune_failed_dumps-deletes list_storage json_of 1500 [] found_dumps true found failed-IsNamed
      unknown-IsNamed

dry_run-keeps_example :
    (prune_failed_dumps record_id list_storage json_of 1500 true true [] ≡ ok (tt, []))
    × (delete_before_date record_id list_storage json_of 1500 true (ok 600) [] ≡ ok (tt, []))
    × (retain_for_dumps record_id list_storage json_of 1500 true (λ idx. 1500) 100 [] ≡ ok (tt, []))
    × (retain_recent_n_dumps record_id list_storage json_of 1500 true 1 [] ≡ ok (tt, []))
dry_run-keeps_example =
    dry_run-keeps (List Bytes) record_id list_storage json_of 1500 [] found_dumps true (λ idx. 1500)
      1 100 600 found valid-IsNamed failed-IsNamed unknown-IsNamed
