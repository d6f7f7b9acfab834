-- ===== src/Toc/Reader/Read.antt =====
-- toc/reader.go: Read.
use greenmask.Common.{◌%◌, ◌^◌, some, Exec, pure, label, modify, get_state, ◌>>=◌, ◌>>◌, length}
use greenmask.Toc.Types.{Toc}
use greenmask.Toc.Reader.{Reader, prune}
use greenmask.Toc.Reader.Header.{read_header}
use greenmask.Toc.Reader.Entries.{read_entries}

unfoldable pub read : Exec Reader Toc
read = do
  header ← label "error reading header" read_header
  entries ← label "error reading entries" read_entries
  s ← get_state
  modify prune
  pure record {
    header =
        some (record header { toc_count = length entries % 2 ^ 32; max_dump_id = s.max_dump_id });
    entries = some entries;
  }
