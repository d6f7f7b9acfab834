-- ===== src/Toc/Persisted.antt =====
-- What an archive of a version keeps of an entry and of a header, and which of them it can hold.
-- This is the specification of the round trip: toc/reader.go and toc/writer.go test the version
-- field by field, and here each field stands with the version that brought it.
use greenmask.Common.{
  ℕ, ◌%◌, ◌^◌, ◌<◌, ◌≤◌, ◌≡◌, ◌≢◌, Bytes, Option, none, some, List, [], ◌∷◌, leb, if◌then◌else◌,
  length, All, IsByte, IsWord32,
}
use greenmask.Toc.Version.{
  make_archive_version, backup_version, max_minor, arch_tar, pg_compression_gzip, section_pre_data,
}
use greenmask.Toc.Types.{CompressionSpecification, Crtm, Header, Entry, zero_spec, zero_crtm}
use greenmask.Toc.Encoding.{FitsStr}
use greenmask.Toc.Reader.Header.{Preamble, spec_of_level}
use greenmask.Toc.Reader.Entries.{section_of, larger_id}

-- `kept v minor x d` is `x` in archives since 1.minor, and `d` in earlier ones.
abbrev pub kept {ℓ} : {A : Type ℓ} → ℕ → ℕ → A → A → A
kept v minor x d = if leb (backup_version minor) v then x else d

abbrev pub section_by_desc : Option Bytes → ℕ
section_by_desc none = section_pre_data
section_by_desc (some desc) = section_of desc

abbrev pub persisted_entry : ℕ → Entry → Entry
persisted_entry v e = record {
  catalog_id = record { table_oid = kept v 8 e.catalog_id.table_oid 0; oid = e.catalog_id.oid };
  dump_id = e.dump_id;
  section = kept v 11 e.section (section_by_desc e.desc);
  had_dumper = e.had_dumper;
  tag = e.tag;
  namespace = kept v 6 e.namespace none;
  tablespace = kept v 10 e.tablespace none;
  tableam = kept v 14 e.tableam none;
  owner = e.owner;
  desc = e.desc;
  defn = e.defn;
  drop_stmt = e.drop_stmt;
  copy_stmt = kept v 3 e.copy_stmt none;
  dependencies = kept v 5 e.dependencies [];
  n_deps = length (kept v 5 e.dependencies []) % 2 ^ 32;
  file_name = e.file_name;
  relkind = kept v 16 e.relkind 0 % 256;
  data_dumper = 0;
  data_length = 0;
}

-- Go's field types, a positive dump id, and strings whose lengths fit an int32. An archive that
-- stores no section needs a description to guess it from.
pub record IsWritable (v : ℕ) (e : Entry) : Type 0 where
  pub dump_id_pos : 0 < e.dump_id
  pub dump_id_max : e.dump_id < 2 ^ 31
  pub had_dumper : IsWord32 e.had_dumper
  pub table_oid : IsWord32 e.catalog_id.table_oid
  pub oid : IsWord32 e.catalog_id.oid
  pub section : IsWord32 e.section
  pub relkind : IsByte e.relkind
  pub tag : FitsStr e.tag
  pub namespace : FitsStr e.namespace
  pub tablespace : FitsStr e.tablespace
  pub tableam : FitsStr e.tableam
  pub owner : FitsStr e.owner
  pub desc : FitsStr e.desc
  pub defn : FitsStr e.defn
  pub drop_stmt : FitsStr e.drop_stmt
  pub copy_stmt : FitsStr e.copy_stmt
  pub file_name : FitsStr e.file_name
  pub dependencies : All IsWord32 e.dependencies
  pub desc_known : v < backup_version 11 → e.desc ≢ none

-- The greatest dump id, from `max_dump_id` on.
abbrev pub largest_id : ℕ → List Entry → ℕ
largest_id max_dump_id [] = max_dump_id
largest_id max_dump_id (e ∷ entries) = largest_id (larger_id max_dump_id e.dump_id) entries

-- Archives since 1.15 keep the algorithm, those since 1.2 the level, and earlier ones neither.
abbrev pub persisted_spec : ℕ → CompressionSpecification → CompressionSpecification
persisted_spec v c =
    kept v 15 (record zero_spec { algorithm = c.algorithm % 256 })
      (kept v 2 (spec_of_level (kept v 4 c.level (c.level % 256)))
        (record zero_spec { level = pg_compression_gzip }))

abbrev pub preamble_of : Header → Preamble
preamble_of h = record {
  version_major = h.version_major;
  version_minor = h.version_minor;
  version_rev = h.version_rev;
  version = h.version;
  int_size = 4;
  off_size = kept h.version 7 h.off_size 4;
  format = h.format;
}

abbrev pub persisted_header : Header → ℕ → ℕ → Header
persisted_header h toc_count max_dump_id = record h {
  int_size = 4;
  off_size = kept h.version 7 h.off_size 4;
  compression_spec = persisted_spec h.version h.compression_spec;
  crtm_date_time = kept h.version 4 h.crtm_date_time zero_crtm;
  arch_db_name = kept h.version 4 h.arch_db_name none;
  archive_remote_version = kept h.version 10 h.archive_remote_version none;
  archive_dump_version = kept h.version 10 h.archive_dump_version none;
  toc_count = toc_count;
  max_dump_id = max_dump_id;
}

pub record IsCrtm (t : Crtm) : Type 0 where
  pub tm_sec : IsWord32 t.tm_sec
  pub tm_min : IsWord32 t.tm_min
  pub tm_hour : IsWord32 t.tm_hour
  pub tm_mday : IsWord32 t.tm_mday
  pub tm_mon : IsWord32 t.tm_mon
  pub tm_year : IsWord32 t.tm_year
  pub tm_is_dst : IsWord32 t.tm_is_dst

-- A header of version 1.1 to 1.16 with four-byte integers and the format that the tool supports.
-- Version 1.0 is left out: its integers have no sign byte, and the writer writes one always.
pub record IsWritableHeader (h : Header) : Type 0 where
  pub major : h.version_major ≡ 1
  pub minor : 0 < h.version_minor
  pub version : h.version ≡ make_archive_version h.version_major h.version_minor h.version_rev
  pub supported : h.version ≤ backup_version max_minor
  pub int_size : h.int_size ≡ 4
  pub off_size : IsByte h.off_size
  pub format : h.format ≡ arch_tar
  pub level : IsWord32 h.compression_spec.level
  pub crtm : IsCrtm h.crtm_date_time
  pub arch_db_name : FitsStr h.arch_db_name
  pub archive_remote_version : FitsStr h.archive_remote_version
  pub archive_dump_version : FitsStr h.archive_dump_version
