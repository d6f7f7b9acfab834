-- ===== src/Toc/RoundTrip/Entries.antt =====
-- An entry, and the list of them.
use greenmask.Common.{
  ℕ, ◌<◌, ◌%◌, ◌^◌, ◌≡◌, ◌≢◌, true, false, refl, Bytes, Option, none, some, List, [], ◌∷◌, ◌++◌,
  append_assoc, append-nil, modify, length, All, lt_int32, arith, leb, lt→leb_false, is_neg32,
  panic, if◌then◌else◌, not, raise, ◌>>◌, map, entry_id_out_of_range,
}
use greenmask.Toc.Version.{backup_version}
use greenmask.Toc.Types.{Entry}
use greenmask.Toc.Encoding.{FitsStr}
use greenmask.Toc.Persisted.{section_by_desc, persisted_entry, largest_id, IsWritable}
use greenmask.Toc.Writer.Entries.{write_fields, write_entry, write_rounds, write_entries}
use greenmask.Toc.Reader.{Reader}
use greenmask.Toc.Reader.Reads.{ready, Reads, Reads-pure, Reads-modify}
use greenmask.Toc.Reader.Entries.{
  larger_id, note_id, guess_section, read_fields, read_entry, read_rounds, read_entries, section_of,
}
use greenmask.Toc.RoundTrip.{
  Link, Link-then, Link-silent, Link-last, Link-label, Link-nothing, Link-since,
}
use greenmask.Toc.RoundTrip.Values.{Link-int, Link-str, Link-oid, Link-with_oids, Link-dependencies}

module _ (v : ℕ) (late : 65536 < v) where
  Reads-note_id :
      (m id : ℕ) → Reads (ready v m) (modify (note_id id)) [] tt (ready v (larger_id m id))
  unfolding note_id
  Reads-note_id m id =
      Reads-modify (ready v m) (ready v (larger_id m id)) (note_id id) (λ rest p. refl)

  Reads-guess_section :
      (m : ℕ) (desc : Option Bytes)
      → (v < backup_version 11 → desc ≢ none)
      → leb (backup_version 11) v ≡ false
      → Reads (ready v m) (guess_section desc) [] (section_by_desc desc) (ready v m)
  unfolding guess_section
  Reads-guess_section m none known early = absurd (known (ground arith) refl)
  Reads-guess_section m (some desc) known early = Reads-pure (section_of desc)

  Link-fields :
      (m : ℕ) (e : Entry)
      → IsWritable v e
      → Link v
          (ready v m)
          (write_fields e)
          (read_fields e.dump_id)
          (persisted_entry v e)
          (ready v m)
  unfolding write_fields read_fields
  Link-fields m e h =
      let str = λ (s : Option Bytes) (fits : FitsStr s). Link-str v m late s fits in
      Link-then _ (Link-label _ _ (Link-int v m late e.had_dumper h.had_dumper)) (
        Link-then _
          (Link-since 8 (Link-oid v m late e.catalog_id.table_oid _ h.table_oid)
            (λ _. Reads-pure _))
          (Link-then _ (Link-oid v m late e.catalog_id.oid _ h.oid) (
            Link-then _ (Link-label _ _ (str e.tag h.tag)) (
              Link-then _ (Link-label _ _ (str e.desc h.desc)) (
                Link-then _
                  (Link-since 11 (Link-label _ _ (Link-int v m late e.section h.section))
                    (Reads-guess_section m e.desc h.desc_known))
                  (Link-then _ (Link-label _ _ (str e.defn h.defn)) (
                    Link-then _ (Link-label _ _ (str e.drop_stmt h.drop_stmt)) (
                      Link-then _
                        (Link-since 3 (Link-label _ _ (str e.copy_stmt h.copy_stmt))
                          (λ _. Reads-pure none))
                        (Link-then _
                          (Link-since 6 (Link-label _ _ (str e.namespace h.namespace))
                            (λ _. Reads-pure none))
                          (Link-then _
                            (Link-since 10 (Link-label _ _ (str e.tablespace h.tablespace))
                              (λ _. Reads-pure none))
                            (Link-then _
                              (Link-since 14 (Link-label _ _ (str e.tableam h.tableam))
                                (λ _. Reads-pure none))
                              (Link-then _
                                (Link-since 16
                                  (Link-label _ _ (Link-int v m late e.relkind (omega arith)))
                                  (λ _. Reads-pure 0))
                                (Link-then _ (Link-label _ _ (str e.owner h.owner)) (
                                  Link-then _
                                    (Link-since 9 (Link-with_oids v m late _) (λ _. Reads-pure tt))
                                    (Link-then _
                                      (Link-since 5
                                        (Link-dependencies v m late e.dependencies h.dependencies)
                                        (λ _. Reads-pure []))
                                      (Link-last _ (Link-label _ _ (str e.file_name h.file_name))
                                        (Reads-pure _)))))))))))))))))

  pub Link-entry :
      (m : ℕ) (e : Entry)
      → IsWritable v e
      → Link v
          (ready v m)
          (write_entry e)
          read_entry
          (persisted_entry v e)
          (ready v (larger_id m e.dump_id))
  unfolding write_entry read_entry
  Link-entry m e h =
      let positive : lt_int32 0 e.dump_id ≡ true = ground (arith, h.dump_id_pos, h.dump_id_max) in
      let rest = λ (id : ℕ).
        if not (lt_int32 0 id) then raise (entry_id_out_of_range id) else read_fields id in
      Link-then (λ id. modify (note_id id) >> rest id)
        (Link-label _ _ (Link-int v m late e.dump_id (omega (arith, h.dump_id_max))))
        (Link-silent (λ _. rest e.dump_id) (Reads-note_id m e.dump_id)
          (rw positive (Link-fields (larger_id m e.dump_id) e h)))

  Link-rounds :
      (m : ℕ) (entries done : List Entry)
      → All (IsWritable v) entries
      → Link v
          (ready v m)
          (write_rounds entries)
          (read_rounds (length entries) done)
          (done ++ map (persisted_entry v) entries)
          (ready v (largest_id m entries))
  unfolding write_rounds read_rounds
  Link-rounds m [] done h = rw append-nil (Link-nothing (Reads-pure done))
  Link-rounds m (e ∷ entries) done (he, hs) =
      rw (← append_assoc done (persisted_entry v e ∷ []) (map (persisted_entry v) entries))
        (Link-then _ (Link-entry m e he) (Link-rounds (larger_id m e.dump_id) entries _ hs))

  pub Link-entries :
      (m : ℕ) (entries : List Entry)
      → length entries < 2 ^ 31
      → All (IsWritable v) entries
      → Link v
          (ready v m)
          (write_entries entries)
          read_entries
          (map (persisted_entry v) entries)
          (ready v (largest_id m entries))
  unfolding write_entries read_entries
  Link-entries m entries fits h =
      let same : length entries % 2 ^ 32 ≡ length entries = omega arith in
      let rest = λ (n : ℕ). if is_neg32 n then panic {S = Reader} else read_rounds n [] in
      rw same (
        Link-then rest (Link-label _ _ (Link-int v m late (length entries) (omega arith)))
          (rw (lt→leb_false (2 ^ 31) (length entries) fits) (Link-rounds m entries [] h)))
