-- ===== src/Toc/Writer/Header.antt =====
-- toc/writer.go: writeHeader, in two parts as `read_header`.
use greenmask.Common.{
  ℕ, ◌%◌, String, Option, Bytes, codes, Bool, Exec, pure, label, ◌>>◌, ltb, leb, if◌then◌else◌,
}
use greenmask.Toc.Version.{backup_version, has_rev}
use greenmask.Toc.Types.{CompressionSpecification, Crtm, Header}
use greenmask.Toc.Writer.{Writer, write_buf, write_byte, write_int, write_str}

unfoldable pub write_version : Header → Exec Writer (Unit {0})
write_version h = do
  label "cannot write magic str" (write_buf (codes "PGDMP"))
  label "cannot write versionMajor" (write_byte h.version_major)
  label "cannot write versionMinor" (write_byte h.version_minor)
  (if has_rev h.version_major h.version_minor
      then label "cannot write versionRev" (write_byte h.version_rev)
      else pure tt)

unfoldable pub write_sizes : Header → Exec Writer (Unit {0})
write_sizes h = do
  label "cannot write intSize" (write_byte (h.int_size % 256))
  (if leb (backup_version 7) h.version
      then label "cannot write offSize" (write_byte (h.off_size % 256))
      else pure tt)
  label "cannot write format" (write_byte h.format)

unfoldable pub write_preamble : Header → Exec Writer (Unit {0})
write_preamble h = do write_version h; write_sizes h

unfoldable pub write_compression : ℕ → CompressionSpecification → Exec Writer (Unit {0})
write_compression version c =
    if leb (backup_version 15) version
    then label "cannot write CompressionSpec.Algorithm" (write_byte (c.algorithm % 256))
    else if leb (backup_version 2) version
    then label "cannot write CompressionSpec.Algorithm"
        (if ltb version (backup_version 4) then write_byte (c.level % 256) else write_int c.level)
    else pure tt

unfoldable pub write_crtm : Crtm → Exec Writer (Unit {0})
write_crtm t = do
  label "cannot write TmSec" (write_int t.tm_sec)
  label "cannot write TmMin" (write_int t.tm_min)
  label "cannot write TmHour" (write_int t.tm_hour)
  label "cannot write TmMday" (write_int t.tm_mday)
  label "cannot write TmMon" (write_int t.tm_mon)
  label "cannot write TmYear" (write_int t.tm_year)
  label "cannot write TmIsDst" (write_int t.tm_is_dst)

-- The parts of the header that only some versions have.
unfoldable pub crtm_if : Bool → Crtm → Exec Writer (Unit {0})
crtm_if has t = if has then write_crtm t else pure tt

unfoldable pub str_if : Bool → String → Option Bytes → Exec Writer (Unit {0})
str_if has msg s = if has then label msg (write_str s) else pure tt

unfoldable pub write_details : Header → Exec Writer (Unit {0})
write_details h = do
  write_compression h.version h.compression_spec
  crtm_if (leb (backup_version 4) h.version) h.crtm_date_time
  str_if (leb (backup_version 4) h.version) "cannot write archDbName" h.arch_db_name
  str_if (leb (backup_version 10) h.version) "cannot write archiveRemoteVersion"
      h.archive_remote_version
  str_if (leb (backup_version 10) h.version) "cannot write archiveDumpVersion"
      h.archive_dump_version

unfoldable pub write_header : Header → Exec Writer (Unit {0})
write_header h = do write_preamble h; write_details h
