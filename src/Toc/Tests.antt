-- ===== src/Toc/Tests.antt =====
-- The theorems on tables of contents at a header of version 1.14 and an entry with dependencies.
use greenmask.Common.{
  ℕ, ◌+◌, ◌-◌, ◌*◌, ◌^◌, ◌<◌, ◌≤◌, ◌≡◌, ◌≢◌, ◌⊎◌, refl, Bytes, codes, none, some, [], ◌∷◌, ◌++◌, ok,
  err, stuck, Error, length, arith,
}
use greenmask.Toc.Types.{Header, Entry, zero_spec}
use greenmask.Toc.Version.{make_archive_version, backup_version}
use greenmask.Toc.Persisted.{IsWritable, IsWritableHeader}
use greenmask.Toc.Reader.{new_reader}
use greenmask.Toc.Reader.Read.{read}
use greenmask.Toc.Reader.Total.{read-ends}
use greenmask.Toc.Writer.{new_writer}
use greenmask.Toc.Writer.Write.{write}
use greenmask.Toc.RoundTrip.Whole.{read-write, persisted, written}

abbrev sample_header : Header
sample_header = record {
  version_major = 1;
  version_minor = 14;
  version_rev = 0;
  version = (1 * 256 + 14) * 256;
  int_size = 4;
  off_size = 8;
  format = 3;
  compression_spec = record zero_spec { level = 6 };
  crtm_date_time = record {
    tm_sec = 10;
    tm_min = 20;
    tm_hour = 3;
    tm_mday = 4;
    tm_mon = 5;
    tm_year = 124;
    tm_is_dst = 0;
  };
  arch_db_name = some (codes "demo");
  archive_remote_version = some (codes "16.1");
  archive_dump_version = none;
  toc_count = 0;
  max_dump_id = 0;
}

abbrev sample_entry : Entry
sample_entry = record {
  catalog_id = record { table_oid = 1259; oid = 16385 };
  dump_id = 7;
  section = 3;
  had_dumper = 1;
  tag = some (codes "users");
  namespace = some (codes "public");
  tablespace = some [];
  tableam = some (codes "heap");
  owner = some (codes "postgres");
  desc = some (codes "TABLE DATA");
  defn = none;
  drop_stmt = none;
  copy_stmt = some (codes "COPY users FROM stdin;");
  dependencies = 3 ∷ (2 ^ 32 - 5) ∷ [];
  n_deps = 2;
  file_name = some (codes "7.dat.gz");
  relkind = 114;
  data_dumper = 0;
  data_length = 0;
}

sample_header-IsWritableHeader : IsWritableHeader sample_header
unfolding make_archive_version backup_version
sample_header-IsWritableHeader = record {
  major = refl;
  minor = omega arith;
  version = refl;
  supported = omega arith;
  int_size = refl;
  off_size = omega arith;
  format = refl;
  level = omega arith;
  crtm = record {
    tm_sec = omega arith;
    tm_min = omega arith;
    tm_hour = omega arith;
    tm_mday = omega arith;
    tm_mon = omega arith;
    tm_year = omega arith;
    tm_is_dst = omega arith;
  };
  arch_db_name = omega arith;
  archive_remote_version = omega arith;
  archive_dump_version = tt;
}

sample_entry-IsWritable : IsWritable sample_header.version sample_entry
sample_entry-IsWritable = record {
  dump_id_pos = omega arith;
  dump_id_max = omega arith;
  had_dumper = omega arith;
  table_oid = omega arith;
  oid = omega arith;
  section = omega arith;
  relkind = omega arith;
  tag = omega arith;
  namespace = omega arith;
  tablespace = omega arith;
  tableam = omega arith;
  owner = omega arith;
  desc = omega arith;
  defn = tt;
  drop_stmt = tt;
  copy_stmt = omega arith;
  file_name = omega arith;
  dependencies = (omega arith, (omega arith, tt));
  desc_known = λ old e. ground arith;
}

read-write_example :
    (archive : Bytes) × (read (new_reader archive)
      ≡ ok (persisted sample_header (sample_entry ∷ []), new_reader []))
    × ((room : ℕ)
        → ((length archive ≤ room)
            × (write
                  (record { header = some sample_header; entries = some (sample_entry ∷ []) })
                  (new_writer room)
                ≡ ok (tt, written archive room)))
          ⊎ ((room < length archive)
              × ((e : Error) × (write
                      (record { header = some sample_header; entries = some (sample_entry ∷ []) })
                      (new_writer room)
                    ≡ err e))))
read-write_example =
    read-write sample_header (sample_entry ∷ []) sample_header-IsWritableHeader (omega arith)
      (sample_entry-IsWritable, tt)

read-ends_example : read (new_reader (codes "PGDMP" ++ 1 ∷ 14 ∷ 0 ∷ 4 ∷ [])) ≢ stuck
read-ends_example = read-ends (codes "PGDMP" ++ 1 ∷ 14 ∷ 0 ∷ 4 ∷ [])
