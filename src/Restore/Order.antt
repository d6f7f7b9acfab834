-- ===== src/Restore/Order.antt =====
-- sortTocEntriesInTopoOrder and sortAndFilterEntriesByRestoreList of cmd/restore.go.
use greenmask.Common.{
  ℕ, Option, none, some, List, [], ◌∷◌, ◌++◌, map, Bool, false, ◌&&◌, not, Result, ok, err,
  panicked, on_ok, file_not_found, if◌then◌else◌, ◌==◌, Bytes, bytes_eq, codes,
}
use greenmask.Toc.Types.{Entry}
use greenmask.Toc.Version.{section_none}
use greenmask.Restore.{Metadata, contains_oid, table_data}

-- `slices.IndexFunc` on the identifier of an entry, and the entry there.
unfoldable pub find_entry : List Entry → ℕ → Option Entry
find_entry [] dump_id = none
find_entry (e ∷ entries) dump_id =
    if e.dump_id == dump_id then some e else find_entry entries dump_id

-- An identifier of the list that is not found is an error.
unfoldable pub sort_and_filter_entries_by_restore_list : List Entry → List ℕ → Result (List Entry)
sort_and_filter_entries_by_restore_list entries [] = ok []
sort_and_filter_entries_by_restore_list entries (dump_id ∷ dump_ids) =
    elim (find_entry entries dump_id) [
      | none ↦ err file_not_found
      | some e ↦
          on_ok (sort_and_filter_entries_by_restore_list entries dump_ids) λ found. ok (e ∷ found)
    ]

-- The first loop: the tables in the order of the metadata. One that is not among the entries is
-- looked up for the log, which panics if it is not in the metadata.
unfoldable pub sorted_tables : Metadata → List Entry → List ℕ → Result (List Entry)
sorted_tables meta entries [] = ok []
sorted_tables meta entries (dump_id ∷ dump_ids) = elim (find_entry entries dump_id) [
  | some e ↦ on_ok (sorted_tables meta entries dump_ids) λ found. ok (e ∷ found)
  | none ↦ elim (meta.dump_ids_to_table_oid dump_id) [
    | none ↦ panicked
    | some oid ↦
        let found = sorted_tables meta entries dump_ids in
        if contains_oid meta.database_schema oid then found else panicked
  ]
]

-- The last two loops: the entries that pass the test and are not in the list yet.
unfoldable pub add_unseen : (Entry → Bool) → List Entry → List ℕ → List Entry
add_unseen wanted [] seen = []
add_unseen wanted (e ∷ entries) seen =
    let fresh = wanted e && not (contains_oid seen e.dump_id) in
    let rest = add_unseen wanted entries (if fresh then e.dump_id ∷ seen else seen) in
    if fresh then e ∷ rest else rest

unfoldable pub has_desc : (Bytes → Bool) → Entry → Bool
has_desc test e = elim e.desc [ none ↦ false | some desc ↦ test desc ]

-- The result keeps the entries of `all` that are ACL entries and have no section.
unfoldable pub sort_toc_entries_in_topo_order :
    Metadata → List Entry → List Entry → Result (List Entry)
sort_toc_entries_in_topo_order meta all entries =
    on_ok (sorted_tables meta entries meta.dump_ids_order) λ tables.
      let others =
        add_unseen (has_desc (λ desc. not (bytes_eq desc table_data))) entries
          (map (λ e. e.dump_id) tables) in
      let sorted = tables ++ others in
      let acls =
        add_unseen
          (λ e. (e.section == section_none) && has_desc (λ desc. bytes_eq desc (codes "ACL")) e) all
          (map (λ e. e.dump_id) sorted) in
      ok (sorted ++ acls)
