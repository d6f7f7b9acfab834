-- ===== src/Toc/Writer/Entries.antt =====
-- toc/writer.go: writeEntries. A round of its loop is `write_entry`.
use greenmask.Common.{
  ℕ, ◌%◌, ◌^◌, codes, none, some, List, [], ◌∷◌, Exec, pure, label, ◌>>◌, length, format_uint,
  format_int32,
}
use greenmask.Toc.Types.{Entry}
use greenmask.Toc.Writer.{Writer, write_int, write_str, since}

unfoldable pub write_dependencies : List ℕ → Exec Writer (Unit {0})
write_dependencies [] = label "unable to write entry Dependencies list terminator" (write_str none)
write_dependencies (d ∷ deps) = do
  label "unable to write entry dependency value" (write_str (some (format_int32 d)))
  write_dependencies deps

-- A round from the dump id on.
unfoldable pub write_fields : Entry → Exec Writer (Unit {0})
write_fields e = do
  label "unable to write DataDumper" (write_int e.had_dumper)
  since 8 (label "unable to write TableOid" (write_str (some (format_uint e.catalog_id.table_oid))))
  label "unable to write Name" (write_str (some (format_uint e.catalog_id.oid)))
  label "unable to write Tag" (write_str e.tag)
  label "unable to write Desc" (write_str e.desc)
  since 11 (label "unable to write Section" (write_int e.section))
  label "unable to write Defn" (write_str e.defn)
  label "unable to write DropStmt" (write_str e.drop_stmt)
  since 3 (label "unable to write CopyStmt" (write_str e.copy_stmt))
  since 6 (label "unable to write Namespace" (write_str e.namespace))
  since 10 (label "unable to write Tablespace" (write_str e.tablespace))
  since 14 (label "unable to write Tableam" (write_str e.tableam))
  since 16 (label "unable to write Relkind" (write_int e.relkind))
  label "unable ro write Owner" (write_str e.owner)
  since 9 (label "unable to write \"false\" value" (write_str (some (codes "false"))))
  since 5 (write_dependencies e.dependencies)
  label "unable to write FileName" (write_str e.file_name)

unfoldable pub write_entry : Entry → Exec Writer (Unit {0})
write_entry e = do label "unable to write DumpId" (write_int e.dump_id); write_fields e

unfoldable pub write_rounds : List Entry → Exec Writer (Unit {0})
write_rounds [] = pure tt
write_rounds (e ∷ entries) = do write_entry e; write_rounds entries

unfoldable pub write_entries : List Entry → Exec Writer (Unit {0})
write_entries entries = do
  label "cannot write tocCount" (write_int (length entries % 2 ^ 32))
  write_rounds entries
