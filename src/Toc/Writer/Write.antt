-- ===== src/Toc/Writer/Write.antt =====
-- toc/writer.go: Write.
use greenmask.Common.{
  none, some, Option, List, Exec, raise, label, modify, ◌>>◌, entries_nil, header_nil,
}
use greenmask.Toc.Types.{Header, Entry, Toc}
use greenmask.Toc.Writer.{Writer, prune}
use greenmask.Toc.Writer.Header.{write_header}
use greenmask.Toc.Writer.Entries.{write_entries}

start : Header → Writer → Writer
start h s = record s { int_size = h.int_size; version = h.version }

write_both : Option (List Entry) → Option Header → Exec Writer (Unit {0})
unfolding start
write_both none header = raise entries_nil
write_both (some entries) none = raise header_nil
write_both (some entries) (some h) = do
  modify (start h)
  label "error writing header" (write_header h)
  label "error writing entries" (write_entries entries)
  modify prune

unfoldable pub write : Toc → Exec Writer (Unit {0})
unfolding write_both prune
write toc = write_both toc.entries toc.header
