-- ===== src/Toc/Reader/Entries.antt =====
-- toc/reader.go: readEntries. A round of its loop is `read_entry`.
use greenmask.Common.{
  ℕ, zero, suc, ◌%◌, ◌^◌, Bytes, codes, bytes_eq, Option, none, some, List, [], ◌∷◌, ◌++◌, not,
  ◌||◌, Exec, pure, raise, panic, out_of_fuel, lift, label, modify, get_state, ◌>>=◌, ◌>>◌,
  nil_pointer, entry_id_out_of_range, if◌then◌else◌, length, is_neg32, lt_int32, parse_uint32,
  parse_int32,
}
use greenmask.Toc.Version.{
  section_none, section_pre_data, section_data, section_post_data, invalid_oid,
}
use greenmask.Toc.Types.{Entry}
use greenmask.Toc.Reader.{Reader, read_int, read_str, since}

-- `if r.maxDumpId < entry.DumpId { r.maxDumpId = entry.DumpId }`
abbrev pub larger_id : ℕ → ℕ → ℕ
larger_id max_dump_id dump_id = if lt_int32 max_dump_id dump_id then dump_id else max_dump_id

unfoldable pub note_id : ℕ → Reader → Reader
note_id dump_id s = record s { max_dump_id = larger_id s.max_dump_id dump_id }

unfoldable pub required : Option Bytes → Exec Reader Bytes
required none = raise nil_pointer
required (some s) = pure s

unfoldable pub read_oid : Exec Reader ℕ
read_oid = do
  tmp ← label "cannot read CatalogId" read_str
  text ← required tmp
  label "cannot cast str to uint32" (lift (parse_uint32 text))

-- The section of an entry by its kind, for archives that do not store it.
pub section_of : Bytes → ℕ
section_of desc =
    if bytes_eq desc (codes "COMMENT")
      || bytes_eq desc (codes "ACL")
      || bytes_eq desc (codes "ACL LANGUAGE")
    then section_none
    else if bytes_eq desc (codes "TABLE DATA")
        || bytes_eq desc (codes "BLOBS")
        || bytes_eq desc (codes "BLOB COMMENTS")
    then section_data
    else if bytes_eq desc (codes "CONSTRAINT")
        || bytes_eq desc (codes "CHECK CONSTRAINT")
        || bytes_eq desc (codes "FK CONSTRAINT")
        || bytes_eq desc (codes "INDEX")
        || bytes_eq desc (codes "RULE")
        || bytes_eq desc (codes "TRIGGER")
    then section_post_data
    else section_pre_data

-- `*entry.Desc` panics on a nil pointer.
unfoldable pub guess_section : Option Bytes → Exec Reader ℕ
guess_section none = panic
guess_section (some desc) = pure (section_of desc)

-- The text of "WITH OIDS" decides only whether a warning is logged.
unfoldable pub read_with_oids : Exec Reader (Unit {0})
read_with_oids = do tmp ← label "cannot read CatalogId" read_str; required tmp; pure tt

-- `for { … }` up to a nil string, with fuel.
-- `next` is what a round does with the string that it read, and `again` the rounds after it.
abbrev pub next : (List ℕ → Exec Reader (List ℕ)) → List ℕ → Option Bytes → Exec Reader (List ℕ)
next again deps none = pure deps
next again deps (some text) = do
  val ← label "unable to parse dependency int32 value" (lift (parse_int32 text))
  again (deps ++ val ∷ [])

unfoldable pub read_dependencies : ℕ → List ℕ → Exec Reader (List ℕ)
read_dependencies zero deps = out_of_fuel
read_dependencies (suc fuel) deps =
    label "cannot read CatalogId" read_str >>= next (read_dependencies fuel) deps

-- A round takes a byte at least, so as many rounds as there are bytes left, and the one that meets
-- the end of the input, are enough.
unfoldable pub read_all_dependencies : Exec Reader (List ℕ)
read_all_dependencies = do s ← get_state; read_dependencies (suc (length s.input)) []

-- A round from the dump id on.
unfoldable pub read_fields : ℕ → Exec Reader Entry
read_fields dump_id = do
  had_dumper ← label "cannot scan hadDumer data" read_int
  table_oid ← since 8 read_oid (pure invalid_oid)
  oid ← read_oid
  tag ← label "cannot read Tag" read_str
  desc ← label "cannot read Desc" read_str
  section ← since 11 (label "cannot Section" read_int) (guess_section desc)
  defn ← label "cannot read Defn" read_str
  drop_stmt ← label "cannot read DropStmt" read_str
  copy_stmt ← since 3 (label "cannot read Defn" read_str) (pure none)
  namespace ← since 6 (label "cannot read Namespace" read_str) (pure none)
  tablespace ← since 10 (label "cannot read Tablespace" read_str) (pure none)
  tableam ← since 14 (label "cannot read Tableam" read_str) (pure none)
  relkind ← since 16 (label "cannot read Relkind" read_int) (pure 0)
  owner ← label "cannot read Tablespace" read_str
  since 9 read_with_oids (pure tt)
  deps ← since 5 read_all_dependencies (pure [])
  file_name ← label "cannot read an additional FileName data" read_str
  pure record {
    catalog_id = record { table_oid = table_oid; oid = oid };
    dump_id = dump_id;
    section = section;
    had_dumper = had_dumper;
    tag = tag;
    namespace = namespace;
    tablespace = tablespace;
    tableam = tableam;
    owner = owner;
    desc = desc;
    defn = defn;
    drop_stmt = drop_stmt;
    copy_stmt = copy_stmt;
    dependencies = deps;
    n_deps = length deps % 2 ^ 32;
    file_name = file_name;
    relkind = relkind % 256;
    data_dumper = 0;
    data_length = 0;
  }

unfoldable pub read_entry : Exec Reader Entry
read_entry = do
  dump_id ← label "cannot scan tocCount" read_int
  modify (note_id dump_id)
  if not (lt_int32 0 dump_id) then raise (entry_id_out_of_range dump_id) else read_fields dump_id

unfoldable pub read_rounds : ℕ → List Entry → Exec Reader (List Entry)
read_rounds zero entries = pure entries
read_rounds (suc n) entries = do entry ← read_entry; read_rounds n (entries ++ entry ∷ [])

-- `make` panics on a negative capacity.
unfoldable pub read_entries : Exec Reader (List Entry)
read_entries = do
  toc_count ← label "cannot scan tocCount" read_int
  if is_neg32 toc_count then panic else read_rounds toc_count []
