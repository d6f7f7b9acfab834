-- ===== src/Restore/Distinct.antt =====
-- sortTocEntriesInTopoOrder of cmd/restore.go keeps the entries that it is to keep, each once.
use greenmask.Common.{
  ℕ, ◌≡◌, ◌⊎◌, none, some, List, ◌++◌, Bool, true, not, ◌&&◌, ◌==◌, bytes_eq, codes, All,
}
use greenmask.Subset.Reach.{Elem, IsDistinct}
use greenmask.Toc.Types.{Entry}
use greenmask.Toc.Version.{section_none}
use greenmask.Restore.{Metadata, contains_oid, table_data}
use greenmask.Restore.Progress.{ids}
use greenmask.Restore.Order.{find_entry, has_desc}
use greenmask.Restore.Entries.{kept_ids, IsSublist}

-- Entries that are added have identifiers of their own, not seen before, and all wanted ones are seen.
record IsAdded (wanted : Entry → Bool) (entries : List Entry) (seen : List ℕ) (added : List Entry)
    : Type 0 where
  part : IsSublist added entries
  good : All (λ e. wanted e ≡ true) added
  distinct : IsDistinct (ids added)
  unseen : (i : ℕ) → Elem i (ids added) → ¬ Elem i seen
  all :
      (e : Entry)
      → Elem e entries
      → wanted e ≡ true
      → Elem e.dump_id seen ⊎ Elem e.dump_id (ids added)

module _ (meta : Metadata) (entries : List Entry) where
  -- An identifier of the order is that of an entry, or of a table that the metadata knows.
  abbrev pub IsKnown : ℕ → Type 0
  IsKnown i =
      ((e : Entry) × (find_entry entries i ≡ some e))
      ⊎ ((oid : ℕ) × (find_entry entries i ≡ none)
          × (meta.dump_ids_to_table_oid i ≡ some oid)
          × (contains_oid meta.database_schema oid ≡ true))

  abbrev is_other : Entry → Bool
  is_other = has_desc (λ desc. not (bytes_eq desc table_data))

  abbrev is_acl : Entry → Bool
  is_acl e = (e.section == section_none) && has_desc (λ desc. bytes_eq desc (codes "ACL")) e

  -- The sorted entries are three parts: entries with the identifiers of the order, in the order; then
  -- entries that are no table data, as they were; and then access lists, as they were. Each
  -- identifier is there once, and every identifier of an entry of the order or of another one that
  -- is no table data is there.
  pub record IsArranged (every sorted : List Entry) : Type 0 where
    pub front : List Entry
    pub behind : List Entry
    pub last : List Entry
    pub parts : sorted ≡ (front ++ behind) ++ last
    pub in_order : ids front ≡ kept_ids entries meta.dump_ids_order
    pub of_entries : All (λ e. Elem e entries) front
    pub no_tables : All (λ e. is_other e ≡ true) behind
    pub unmoved : IsSublist behind entries
    pub acls : All (λ e. is_acl e ≡ true) last
    pub unmoved_acls : IsSublist last every
    pub distinct : IsDistinct (ids sorted)
    pub tables :
        (e : Entry)
        → Elem e entries
        → Elem e.dump_id meta.dump_ids_order
        → Elem e.dump_id (ids sorted)
    pub others :
        (e : Entry)
        → Elem e entries
        → has_desc (λ desc. not (bytes_eq desc table_data)) e ≡ true
        → Elem e.dump_id (ids sorted)
