-- ===== src/Toc/RoundTrip/Header.antt =====
-- The header.
use greenmask.Common.{
  ℕ, ◌<◌, ◌%◌, ◌≡◌, true, false, refl, Bytes, codes, Option, none, [], ◌∷◌, Bool, Bool-cases,
  String, not, raise, unsupported_format, inl, inr, Exec, pure, label, ◌>>=◌, ◌>>◌, IsWord32, arith,
  leb, ltb, ◌==◌, if◌then◌else◌,
}
use greenmask.Toc.Version.{arch_tar, max_minor, make_archive_version, backup_version, has_rev}
use greenmask.Toc.Types.{CompressionSpecification, Crtm, Header, zero_crtm}
use greenmask.Toc.Encoding.{FitsStr}
use greenmask.Toc.Persisted.{
  kept, persisted_spec, preamble_of, persisted_header, IsCrtm, IsWritableHeader,
}
use greenmask.Toc.Writer
use greenmask.Toc.Writer.{Writer, write_byte, write_buf, write_int}
use greenmask.Toc.Writer.Emits.{Emits-then, Emits-label, Emits-write_byte, Emits-write_buf}
use greenmask.Toc.Writer.Header.{
  write_version, write_sizes, write_preamble, write_compression, write_crtm, write_details,
  write_header,
}
use greenmask.Toc.Reader
use greenmask.Toc.Reader.{Reader, read_bytes, read_byte, read_int}
use greenmask.Toc.Reader.Reads.{
  Context, ready, Reads-bind, Reads-pure, Reads-label, Reads-read_bytes, Reads-read_byte,
  Reads-modify,
}
use greenmask.Toc.Reader.Header.{
  Preamble, read_magic, read_rev, read_format, read_checked, pair, read_version, read_sizes,
  read_preamble, read_compression, read_crtm, read_details, read_header, set_version, set_int_size,
  spec_of_level,
}
use greenmask.Toc.RoundTrip.{
  Link, Link-then, Link-silent, Link-last, Link-label, Link-label_writer, Link-label_reader,
  Link-if,
}
use greenmask.Toc.RoundTrip.Values.{Link-int, Link-str}

abbrev pub blank : Context
blank = record { int_size = 0; version = 0; max_dump_id = 0 }

Link-byte : {v : ℕ} {c : Context} (b : ℕ) → Link v c (write_byte b) read_byte b c
Link-byte {c} b = record { bytes = b ∷ []; emits = Emits-write_byte b; reads = Reads-read_byte c b }

Link-magic :
    {v : ℕ} {c : Context} (msg : String)
    → Link v c (label msg (write_buf (codes "PGDMP"))) read_magic tt c
unfolding read_magic
Link-magic {c} msg = record {
  bytes = codes "PGDMP";
  emits = Emits-label _ _ (Emits-write_buf _);
  reads = record { run = λ rest p. rw ((Reads-read_bytes c (codes "PGDMP")).run rest p) };
}

-- Two bytes that the writer writes one by one and the reader reads at once.
Link-pair :
    {v : ℕ} {c : Context} {B : Type 0} {w : Exec Writer (Unit {0})} (msg₁ msg₂ msg : String)
    (k : ℕ × ℕ → Exec Reader B) (a b : ℕ) {y : B}
    → Link v c w (k (a, b)) y c
    → Link v c
        (label msg₁ (write_byte a) >> (label msg₂ (write_byte b) >> w))
        (label msg (read_bytes 2 >>= pair) >>= k)
        y
        c
unfolding pair
Link-pair {c} msg₁ msg₂ msg k a b h = record {
  bytes = a ∷ b ∷ h.bytes;
  emits =
      Emits-then _ _ (Emits-label _ _ (Emits-write_byte a))
        (Emits-then _ _ (Emits-label _ _ (Emits-write_byte b)) h.emits);
  reads =
      Reads-bind _ k
        (Reads-label msg _
          (Reads-bind (read_bytes 2) pair (Reads-read_bytes c (a ∷ b ∷ [])) (Reads-pure (a, b))))
        h.reads;
}

has_rev-IsWritableHeader :
    (h : Header) → IsWritableHeader h → has_rev h.version_major h.version_minor ≡ true
unfolding has_rev
has_rev-IsWritableHeader h holds = ground (arith, holds.major, holds.minor)

abbrev finish : Header → ℕ → Exec Reader Preamble
finish h format =
    if not (format == arch_tar)
    then raise (unsupported_format format)
    else pure (record (preamble_of h) { format = format })

Link-version :
    {v : ℕ} {c : Context} (h : Header)
    → IsWritableHeader h
    → Link v c (write_version h) read_version (h.version_major, h.version_minor, h.version_rev) c
unfolding write_version read_version read_rev
Link-version h holds = Link-then _ (Link-magic _) (
    Link-pair _ _ _ read_rev h.version_major h.version_minor (
      rw (has_rev-IsWritableHeader h holds)
        (Link-last _ (Link-label _ _ (Link-byte h.version_rev)) (Reads-pure _))))

Link-format :
    {v m : ℕ} (h : Header)
    → IsWritableHeader h
    → Link v
        (ready v m)
        ((if leb (backup_version 7) h.version
            then label "cannot write offSize" (write_byte (h.off_size % 256))
            else pure tt)
          >> label "cannot write format" (write_byte h.format))
        (read_format h.version_major h.version_minor h.version_rev h.version 4)
        (preamble_of h)
        (ready v m)
unfolding read_format
Link-format h holds =
    let known : not (h.format == arch_tar) ≡ false = ground (arith, holds.format) in
    let same : h.off_size % 256 ≡ h.off_size = omega (arith, holds.off_size) in
    rw same (
      Link-then _ (Link-if _ (Link-label _ _ (Link-byte h.off_size)) (Reads-pure 4))
        (Link-last (finish h) (Link-label _ _ (Link-byte h.format)) (rw known (Reads-pure _))))

Link-sizes :
    {v m : ℕ} (h : Header)
    → IsWritableHeader h
    → Link v
        (record { int_size = 0; version = v; max_dump_id = m })
        (write_sizes h)
        (read_sizes h.version_major h.version_minor h.version_rev h.version)
        (preamble_of h)
        (ready v m)
unfolding write_sizes read_sizes set_int_size
Link-sizes {v} {m} h holds =
    let four : h.int_size % 256 ≡ 4 = omega (arith, holds.int_size) in
    rw four (
      Link-then _ (Link-label _ _ (Link-byte 4)) (
        Link-silent (λ _. read_format h.version_major h.version_minor h.version_rev h.version 4)
          (Reads-modify _ (ready v m) (set_int_size 4) (λ rest p. refl)) (Link-format h holds)))

-- Versions that can be written are later than 1.0.
pub version-IsWritableHeader : (h : Header) → IsWritableHeader h → 65536 < h.version
unfolding make_archive_version
version-IsWritableHeader h holds = omega (arith, holds.version, holds.major, holds.minor)

not_too_old : (v : ℕ) → 65536 < v → ltb v (backup_version 0) ≡ false
unfolding backup_version
not_too_old v late = ground arith

Link-checked :
    {m : ℕ} (h : Header)
    → IsWritableHeader h
    → Link h.version
        (record { int_size = 0; version = 0; max_dump_id = m })
        (write_sizes h)
        (read_checked (h.version_major, h.version_minor, h.version_rev))
        (preamble_of h)
        (ready h.version m)
unfolding read_checked set_version
Link-checked {m} h holds =
    let low = not_too_old h.version (version-IsWritableHeader h holds) in
    let high : ltb (backup_version max_minor) h.version ≡ false = ground (arith, holds.supported) in
    rw (← holds.version) (
      rw (low, high)
        (Link-silent (λ _. read_sizes h.version_major h.version_minor h.version_rev h.version)
          (Reads-modify _ (record { int_size = 0; version = h.version; max_dump_id = m })
            (set_version h.version) (λ rest p. refl))
          (Link-sizes h holds)))

module _ {v m : ℕ} (late : 65536 < v) where
  Link-level :
      (level : ℕ)
      → IsWord32 level
      → Link v
          (ready v m)
          (if ltb v (backup_version 4) then write_byte (level % 256) else write_int level)
          (if ltb v (backup_version 4) then read_byte else read_int)
          (kept v 4 level (level % 256))
          (ready v m)
  Link-level level word = elim (Bool-cases (leb (backup_version 4) v)) [
    | inl e ↦
        let new : ltb v (backup_version 4) ≡ false = ground arith in
        rw (e, new) (Link-int v m late level word)
    | inr e ↦
        let old : ltb v (backup_version 4) ≡ true = ground arith in
        rw (e, old) (Link-byte (level % 256))
  ]

  Link-compression :
      (c : CompressionSpecification)
      → IsWord32 c.level
      → Link v
          (ready v m)
          (write_compression v c)
          (read_compression v)
          (persisted_spec v c)
          (ready v m)
  unfolding write_compression read_compression
  Link-compression c word = elim (Bool-cases (leb (backup_version 15) v)) [
    | inl e ↦ rw e (Link-last _ (Link-label _ _ (Link-byte (c.algorithm % 256))) (Reads-pure _))
    | inr e ↦ rw e (
        Link-if (leb (backup_version 2) v)
          (Link-last (λ level. pure (spec_of_level level))
            (Link-label _ _ (Link-level c.level word)) (Reads-pure _))
          (Reads-pure _))
  ]

  Link-crtm : (t : Crtm) → IsCrtm t → Link v (ready v m) (write_crtm t) read_crtm t (ready v m)
  unfolding write_crtm read_crtm
  Link-crtm t h =
      let int = λ (x : ℕ) (word : IsWord32 x). Link-int v m late x word in
      Link-then _ (Link-label_writer _ (int t.tm_sec h.tm_sec)) (
        Link-then _ (Link-label_writer _ (int t.tm_min h.tm_min)) (
          Link-then _ (Link-label_writer _ (int t.tm_hour h.tm_hour)) (
            Link-then _ (Link-label_writer _ (int t.tm_mday h.tm_mday)) (
              Link-then _ (Link-label_writer _ (int t.tm_mon h.tm_mon)) (
                Link-then _ (Link-label_writer _ (int t.tm_year h.tm_year)) (
                  Link-last _ (Link-label_writer _ (int t.tm_is_dst h.tm_is_dst))
                    (Reads-pure t)))))))

Link-crtm_if :
    {v m : ℕ} (late : 65536 < v) (has : Bool) (t : Crtm)
    → IsCrtm t
    → Link v
        (ready v m)
        (Writer.Header.crtm_if has t)
        (Reader.Header.crtm_if has)
        (if has then t else zero_crtm)
        (ready v m)
unfolding Writer.Header.crtm_if Reader.Header.crtm_if
Link-crtm_if late has t h =
    Link-if has (Link-label_reader _ (Link-crtm late t h)) (Reads-pure zero_crtm)

Link-str_if :
    {v m : ℕ} (late : 65536 < v) (has : Bool) (msg₁ msg₂ : String) (s : Option Bytes)
    → FitsStr s
    → Link v
        (ready v m)
        (Writer.Header.str_if has msg₁ s)
        (Reader.Header.str_if has msg₂)
        (if has then s else none)
        (ready v m)
unfolding Writer.Header.str_if Reader.Header.str_if
Link-str_if {v} {m} late has msg₁ msg₂ s fits =
    Link-if has (Link-label _ _ (Link-str v m late s fits)) (Reads-pure none)

Link-details :
    {m : ℕ} (h : Header)
    → IsWritableHeader h
    → Link h.version
        (ready h.version m)
        (write_details h)
        (read_details (preamble_of h))
        (persisted_header h 0 0)
        (ready h.version m)
unfolding write_details read_details
Link-details h holds =
    let late = version-IsWritableHeader h holds in
    Link-then _ (Link-compression late h.compression_spec holds.level) (
      Link-then _ (Link-crtm_if late _ h.crtm_date_time holds.crtm) (
        Link-then _ (Link-str_if late _ _ _ h.arch_db_name holds.arch_db_name) (
          Link-then _ (Link-str_if late _ _ _ h.archive_remote_version holds.archive_remote_version)
            (Link-last _ (Link-str_if late _ _ _ h.archive_dump_version holds.archive_dump_version)
              (Reads-pure _)))))

pub Link-header :
    (h : Header)
    → IsWritableHeader h
    → Link h.version blank (write_header h) read_header (persisted_header h 0 0) (ready h.version 0)
unfolding write_header write_preamble read_header read_preamble
Link-header h holds =
    Link-then read_details (Link-then read_checked (Link-version h holds) (Link-checked h holds))
      (Link-details h holds)
