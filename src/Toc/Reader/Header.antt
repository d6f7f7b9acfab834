-- ===== src/Toc/Reader/Header.antt =====
-- toc/reader.go: readHeader. What it reads up to the format decides how the rest is read, so the
-- two parts are functions of their own.
use greenmask.Common.{
  ℕ, Bytes, String, Option, codes, bytes_eq, none, ◌∷◌, Bool, not, ◌||◌, Result, ok, err, panicked,
  stuck, Exec, pure, raise, panic, label, modify, ◌>>=◌, ◌>>◌, no_magic_string, unsupported_version,
  int_size_check, unsupported_format, ltb, leb, ◌==◌, if◌then◌else◌,
}
use greenmask.Toc.Version.{
  make_archive_version, backup_version, has_rev, max_minor, arch_tar, pg_compression_none,
  pg_compression_gzip,
}
use greenmask.Toc.Types.{CompressionSpecification, Crtm, Header, zero_spec, zero_crtm}
use greenmask.Toc.Reader.{Reader, read_bytes, read_byte, read_int, read_str}

-- The header's fields up to the format.
pub record Preamble : Type 0 where
  pub version_major : ℕ
  pub version_minor : ℕ
  pub version_rev : ℕ
  pub version : ℕ
  pub int_size : ℕ
  pub off_size : ℕ
  pub format : ℕ

-- An error of the first read is logged, and the nil slice that it leaves fails the comparison.
check_magic : Result (Bytes × Reader) → Result (Unit {0} × Reader)
check_magic (ok (magic, s)) =
    if bytes_eq magic (codes "PGDMP") then ok (tt, s) else err no_magic_string
check_magic (err e) = err no_magic_string
check_magic panicked = panicked
check_magic stuck = stuck

unfoldable pub read_magic : Exec Reader (Unit {0})
unfolding check_magic
read_magic s = check_magic (read_bytes 5 s)

-- `*byteVars[idx] = bytes[idx]` for two variables.
unfoldable pub pair : Bytes → Exec Reader (ℕ × ℕ)
pair (a ∷ b ∷ _) = pure (a, b)
pair _ = panic

unfoldable pub set_version : ℕ → Reader → Reader
set_version version s = record s { version = version }

unfoldable pub set_int_size : ℕ → Reader → Reader
set_int_size int_size s = record s { int_size = int_size }

unfoldable pub read_rev : ℕ × ℕ → Exec Reader (ℕ × ℕ × ℕ)
read_rev (major, minor) = do
  rev ← (if has_rev major minor then label "unable to scan rev version data" read_byte else pure 0)
  pure (major, minor, rev)

unfoldable pub read_version : Exec Reader (ℕ × ℕ × ℕ)
read_version =
    read_magic
    >> (label "unable to scan major and minor version data" (read_bytes 2 >>= pair) >>= read_rev)

unfoldable pub read_format : ℕ → ℕ → ℕ → ℕ → ℕ → Exec Reader Preamble
read_format major minor rev version int_size = do
  off_size ←
      (if leb (backup_version 7) version
        then label "cannot read intSize value" read_byte
        else pure int_size)
  format ← label "unable to scan bytes from TOC srcFile" read_byte
  if not (format == arch_tar)
      then raise (unsupported_format format)
      else pure record {
        version_major = major;
        version_minor = minor;
        version_rev = rev;
        version = version;
        int_size = int_size;
        off_size = off_size;
        format = format;
      }

unfoldable pub read_sizes : ℕ → ℕ → ℕ → ℕ → Exec Reader Preamble
read_sizes major minor rev version = do
  int_size ← label "cannot read intSize value" read_byte
  if ltb 32 int_size
      then raise (int_size_check int_size)
      else do modify (set_int_size int_size); read_format major minor rev version int_size

-- The tests that follow the version bytes.
unfoldable pub read_checked : ℕ × ℕ × ℕ → Exec Reader Preamble
read_checked (major, minor, rev) = do
  let version = make_archive_version major minor rev
  modify (set_version version)
  if ltb version (backup_version 0) || ltb (backup_version max_minor) version
      then raise (unsupported_version major minor)
      else read_sizes major minor rev version

unfoldable pub read_preamble : Exec Reader Preamble
read_preamble = read_version >>= read_checked

-- The algorithm that follows from a level, in versions that store only the level.
abbrev pub spec_of_level : ℕ → CompressionSpecification
spec_of_level level = record zero_spec {
  level = level;
  algorithm = if level == 0 then pg_compression_none else pg_compression_gzip;
}

unfoldable pub read_compression : ℕ → Exec Reader CompressionSpecification
read_compression version =
    if leb (backup_version 15) version
    then (do
      algorithm ← label "unable to scan CompressionSpec.Algorithm" read_byte
      pure (record zero_spec { algorithm = algorithm }))
    else if leb (backup_version 2) version
    then (do
      level ←
          label "unable to scan CompressionSpec.Severity"
            (if ltb version (backup_version 4) then read_byte else read_int)
      pure (spec_of_level level))
    else pure (record zero_spec { level = pg_compression_gzip })

unfoldable pub read_crtm : Exec Reader Crtm
read_crtm = do
  tm_sec ← read_int
  tm_min ← read_int
  tm_hour ← read_int
  tm_mday ← read_int
  tm_mon ← read_int
  tm_year ← read_int
  tm_is_dst ← read_int
  pure record {
    tm_sec = tm_sec;
    tm_min = tm_min;
    tm_hour = tm_hour;
    tm_mday = tm_mday;
    tm_mon = tm_mon;
    tm_year = tm_year;
    tm_is_dst = tm_is_dst;
  }

-- The parts of the header that only some versions have.
unfoldable pub crtm_if : Bool → Exec Reader Crtm
crtm_if has = if has then label "cannot scan backup date" read_crtm else pure zero_crtm

unfoldable pub str_if : Bool → String → Exec Reader (Option Bytes)
str_if has msg = if has then label msg read_str else pure none

unfoldable pub read_details : Preamble → Exec Reader Header
read_details p = do
  spec ← read_compression p.version
  crtm ← crtm_if (leb (backup_version 4) p.version)
  arch_db_name ← str_if (leb (backup_version 4) p.version) "cannot read archdbname"
  remote_version ← str_if (leb (backup_version 10) p.version) "cannot rad archiveRemoteVersion"
  dump_version ← str_if (leb (backup_version 10) p.version) "cannot read archiveDumpVersion"
  pure record {
    version_major = p.version_major;
    version_minor = p.version_minor;
    version_rev = p.version_rev;
    version = p.version;
    int_size = p.int_size;
    off_size = p.off_size;
    format = p.format;
    compression_spec = spec;
    crtm_date_time = crtm;
    arch_db_name = arch_db_name;
    archive_remote_version = remote_version;
    archive_dump_version = dump_version;
    toc_count = 0;
    max_dump_id = 0;
  }

unfoldable pub read_header : Exec Reader Header
read_header = do p ← read_preamble; read_details p
