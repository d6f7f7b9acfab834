-- ===== src/Toc/Reader/HeaderEnds.antt =====
-- Reading the header ends on every input.
use greenmask.Common.{
  ℕ, ◌≡◌, refl, Bytes, String, none, [], ◌∷◌, Bool, not, ◌||◌, Bool-cases, inl, inr, codes,
  bytes_eq, Result, ok, err, panicked, stuck, label, ltb, leb, ◌==◌, arith,
}
use greenmask.Common.{unsupported_format, unsupported_version, int_size_check}
use greenmask.Toc.Version.{backup_version, has_rev, max_minor, make_archive_version, arch_tar}
use greenmask.Toc.Types.{zero_crtm}
use greenmask.Toc.Reader.{Reader, read_str, read_int, read_bytes, read_byte}
use greenmask.Toc.Reader.Header.{
  Preamble, read_magic, pair, set_version, set_int_size, read_rev, read_version, read_format,
  read_sizes, read_checked, read_preamble, read_compression, read_crtm, crtm_if, str_if,
  read_details, read_header,
}
use greenmask.Toc.Reader.Termination.{
  Ends, Terminates, Terminates-then, Terminates-pure, Terminates-raise, Terminates-panic,
  Terminates-label, Terminates-if, Terminates-modify, Terminates-le, read_bytes_ends,
  read_byte_ends, read_int_ends, read_str_ends,
}

read_magic_ends : Terminates 0 read_magic
unfolding read_magic
read_magic_ends = record { at = λ s. go s (read_bytes 5 s) refl ((read_bytes_ends 5).at s) }
  where
    go :
        (s : Reader) (r : Result (Bytes × Reader))
        → read_bytes 5 s ≡ r
        → Ends 5 s r
        → Ends 0 s (read_magic s)
    go s (ok (magic, t)) e h = elim (Bool-cases (bytes_eq magic (codes "PGDMP"))) [
      | inl same ↦ rw (e, same) (omega arith)
      | inr other ↦ rw (e, other) tt
    ]
    go s (err x) e h = rw e tt
    go s panicked e h = rw e tt
    go s stuck e h = absurd h

pair_ends : (b : Bytes) → Terminates 0 (pair b)
unfolding pair
pair_ends [] = Terminates-panic
pair_ends (a ∷ []) = Terminates-panic
pair_ends (a ∷ b ∷ _) = Terminates-pure (a, b)

byte_ends : (msg : String) → Terminates 0 (label msg read_byte)
byte_ends msg = Terminates-label msg (Terminates-le (omega arith) read_byte_ends)

str_ends : (msg : String) → Terminates 0 (label msg read_str)
str_ends msg = Terminates-label msg (Terminates-le (omega arith) read_str_ends)

read_rev_ends : (v : ℕ × ℕ) → Terminates 0 (read_rev v)
unfolding read_rev
read_rev_ends (major, minor) =
    Terminates-then (Terminates-if (has_rev major minor) (byte_ends _) (Terminates-pure 0))
      (λ rev. Terminates-pure (major, minor, rev))

read_version_ends : Terminates 0 read_version
unfolding read_version
read_version_ends = Terminates-then read_magic_ends (λ _.
    Terminates-then (Terminates-label _ (Terminates-then (read_bytes_ends 2) pair_ends))
      read_rev_ends)

read_format_ends :
    (major minor rev version int_size : ℕ)
    → Terminates 0 (read_format major minor rev version int_size)
unfolding read_format
read_format_ends major minor rev version int_size =
    Terminates-then
      (Terminates-if (leb (backup_version 7) version) (byte_ends _) (Terminates-pure int_size))
      λ off_size. Terminates-then (byte_ends _) λ format.
        Terminates-if (not (format == arch_tar)) (Terminates-raise (unsupported_format format))
          (record { at = λ s. omega arith })

read_sizes_ends : (major minor rev version : ℕ) → Terminates 0 (read_sizes major minor rev version)
unfolding read_sizes set_int_size
read_sizes_ends major minor rev version = Terminates-then (byte_ends _) λ int_size.
    Terminates-if (ltb 32 int_size) (Terminates-raise (int_size_check int_size)) (
      Terminates-then (Terminates-modify (set_int_size int_size) (λ s. refl))
        (λ _. read_format_ends major minor rev version int_size))

read_checked_ends : (v : ℕ × ℕ × ℕ) → Terminates 0 (read_checked v)
unfolding read_checked set_version
read_checked_ends (major, minor, rev) =
    Terminates-then
      (Terminates-modify (set_version (make_archive_version major minor rev)) (λ s. refl))
      λ _.
        let version = make_archive_version major minor rev in
        Terminates-if (ltb version (backup_version 0) || ltb (backup_version max_minor) version)
          (Terminates-raise (unsupported_version major minor))
          (read_sizes_ends major minor rev (make_archive_version major minor rev))

read_compression_ends : (version : ℕ) → Terminates 0 (read_compression version)
unfolding read_compression
read_compression_ends version =
    Terminates-if (leb (backup_version 15) version)
      (Terminates-then (byte_ends _) (λ algorithm. record { at = λ s. omega arith }))
      (Terminates-if (leb (backup_version 2) version)
        (Terminates-then {j = 0}
          (Terminates-label _ (
            Terminates-if (ltb version (backup_version 4))
              (Terminates-le (omega arith) read_byte_ends)
              (Terminates-le (omega arith) read_int_ends)))
          (λ level. record { at = λ s. omega arith }))
        (record { at = λ s. omega arith }))

number_ends : Terminates 0 read_int
number_ends = Terminates-le (omega arith) read_int_ends

read_crtm_ends : Terminates 0 read_crtm
unfolding read_crtm
read_crtm_ends = Terminates-then number_ends λ _. Terminates-then number_ends λ _.
    Terminates-then number_ends λ _. Terminates-then number_ends λ _.
      Terminates-then number_ends λ _.
        Terminates-then number_ends
          λ _. Terminates-then number_ends λ _. record { at = λ s. omega arith }

crtm_if_ends : (has : Bool) → Terminates 0 (crtm_if has)
unfolding crtm_if
crtm_if_ends has = Terminates-if has (Terminates-label _ read_crtm_ends) (Terminates-pure zero_crtm)

str_if_ends : (has : Bool) (msg : String) → Terminates 0 (str_if has msg)
unfolding str_if
str_if_ends has msg = Terminates-if has (str_ends msg) (Terminates-pure none)

read_details_ends : (p : Preamble) → Terminates 0 (read_details p)
unfolding read_details
read_details_ends p = Terminates-then (read_compression_ends p.version) λ _.
    Terminates-then (crtm_if_ends _) λ _. Terminates-then (str_if_ends _ _) λ _.
      Terminates-then (str_if_ends _ _)
        λ _. Terminates-then (str_if_ends _ _) λ _. record { at = λ s. omega arith }

pub read_header_ends : Terminates 0 read_header
unfolding read_header read_preamble
read_header_ends =
    Terminates-then (Terminates-then read_version_ends read_checked_ends) read_details_ends
