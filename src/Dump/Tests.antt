-- ===== src/Dump/Tests.antt =====
-- The theorem on MergeTocEntries at a table, its data, an entry of no section and an index.
use greenmask.Common.{ℕ, ◌≡◌, refl, none, [], ◌∷◌}
use greenmask.Toc.Types.{Entry}
use greenmask.Dump.{merge_toc_entries}
use greenmask.Dump.Merge.{merge_toc_entries-bounds}

abbrev entry : ℕ → ℕ → Entry
entry id section = record {
  catalog_id = record { table_oid = 0; oid = 0 };
  dump_id = id;
  section = section;
  had_dumper = 0;
  tag = none;
  namespace = none;
  tablespace = none;
  tableam = none;
  owner = none;
  desc = none;
  defn = none;
  drop_stmt = none;
  copy_stmt = none;
  dependencies = [];
  n_deps = 0;
  file_name = none;
  relkind = 0;
  data_dumper = 0;
  data_length = 0;
}

merge_toc_entries-bounds_example :
    merge_toc_entries [] (entry 1 1 ∷ entry 2 2 ∷ entry 3 1 ∷ entry 4 4 ∷ []) (entry 5 3 ∷ [])
    ≡ entry 1 1 ∷ entry 2 2 ∷ entry 5 3 ∷ entry 4 4 ∷ []
merge_toc_entries-bounds_example =
    merge_toc_entries-bounds [] (entry 1 1 ∷ []) (entry 2 2) (entry 3 1 ∷ []) (entry 4 4 ∷ [])
      (entry 5 3) [] (refl, tt) refl refl ((refl, refl), tt) (refl, refl)
