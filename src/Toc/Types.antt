-- ===== src/Toc/Types.antt =====
-- The structs of toc/header.go, toc/entry.go and toc/toc.go. A `*string` is an `Option Bytes`, and
-- an int32 is its bit pattern.
use greenmask.Common.{ℕ, Bytes, Option, List}

pub record CompressionSpecification : Type 0 where
  pub algorithm : ℕ
  pub options : ℕ
  pub level : ℕ
  pub workers : ℕ

pub record Crtm : Type 0 where
  pub tm_sec : ℕ
  pub tm_min : ℕ
  pub tm_hour : ℕ
  pub tm_mday : ℕ
  pub tm_mon : ℕ
  pub tm_year : ℕ
  pub tm_is_dst : ℕ

pub record Header : Type 0 where
  pub version_major : ℕ
  pub version_minor : ℕ
  pub version_rev : ℕ
  pub version : ℕ
  pub int_size : ℕ
  pub off_size : ℕ
  pub format : ℕ
  pub compression_spec : CompressionSpecification
  pub crtm_date_time : Crtm
  pub arch_db_name : Option Bytes
  pub archive_remote_version : Option Bytes
  pub archive_dump_version : Option Bytes
  pub toc_count : ℕ
  pub max_dump_id : ℕ

pub record CatalogId : Type 0 where
  pub table_oid : ℕ
  pub oid : ℕ

pub record Entry : Type 0 where
  pub catalog_id : CatalogId
  pub dump_id : ℕ
  pub section : ℕ
  pub had_dumper : ℕ
  pub tag : Option Bytes
  pub namespace : Option Bytes
  pub tablespace : Option Bytes
  pub tableam : Option Bytes
  pub owner : Option Bytes
  pub desc : Option Bytes
  pub defn : Option Bytes
  pub drop_stmt : Option Bytes
  pub copy_stmt : Option Bytes
  pub dependencies : List ℕ
  pub n_deps : ℕ
  pub file_name : Option Bytes
  pub relkind : ℕ
  pub data_dumper : ℕ
  pub data_length : ℕ

-- A nil header and a nil slice of entries are told from empty ones.
pub record Toc : Type 0 where
  pub header : Option Header
  pub entries : Option (List Entry)

abbrev pub zero_spec : CompressionSpecification
zero_spec = record { algorithm = 0; options = 0; level = 0; workers = 0 }

abbrev pub zero_crtm : Crtm
zero_crtm = record {
  tm_sec = 0;
  tm_min = 0;
  tm_hour = 0;
  tm_mday = 0;
  tm_mon = 0;
  tm_year = 0;
  tm_is_dst = 0;
}
