-- ===== src/Dump.antt =====
-- MergeTocEntries of internal/db/postgres/cmd/dump.go: the entries that pg_dump wrote for the schema,
-- and between them those for the data.
pub mod Merge
mod Tests
use greenmask.Common.{
  ℕ, zero, suc, Option, none, some, List, [], ◌∷◌, ◌++◌, Bool, true, false, if◌then◌else◌, ◌==◌,
  take, drop,
}
use greenmask.Toc.Types.{Entry}
use greenmask.Toc.Version.{section_pre_data, section_post_data}

-- `preDataEnd` and `postDataStart`, with `none` for -1.
pub record Bounds : Type 0 where
  pub pre_data_end : Option ℕ
  pub post_data_start : Option ℕ

-- The loop over the schema entries from the index `idx` on; it ends at the first of the post-data.
unfoldable pub find_bounds : ℕ → Option ℕ → List Entry → Bounds
find_bounds idx pre [] = record { pre_data_end = pre; post_data_start = none }
find_bounds idx pre (item ∷ items) =
    let pre_data_end = if item.section == section_pre_data then some idx else pre in
    let rest = find_bounds (suc idx) pre_data_end items in
    if item.section == section_post_data
    then record { pre_data_end = pre_data_end; post_data_start = some idx }
    else rest

-- `schemaEntries[:preDataEnd+1]`
unfoldable pub head_entries : List Entry → Option ℕ → List Entry
head_entries items none = []
head_entries items (some idx) = take (suc idx) items

-- `schemaEntries[postDataStart:]`
unfoldable pub tail_entries : List Entry → Option ℕ → List Entry
tail_entries items none = []
tail_entries items (some idx) = drop idx items

-- `blobs` are the entries of GetAllDDLs, and none when there are no large objects.
unfoldable pub merge_toc_entries : List Entry → List Entry → List Entry → List Entry
merge_toc_entries blobs schema_entries [] = schema_entries
merge_toc_entries blobs schema_entries (d ∷ data_entries) =
    let bounds = find_bounds zero none schema_entries in
    head_entries schema_entries bounds.pre_data_end
    ++ blobs
    ++ (d ∷ data_entries)
    ++ tail_entries schema_entries bounds.post_data_start
