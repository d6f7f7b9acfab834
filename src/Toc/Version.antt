-- ===== src/Toc/Version.antt =====
-- toc/utils.go and the constants of toc/entry.go.
use greenmask.Common.{ℕ, ◌+◌, ◌*◌, Bool, ◌&&◌, ◌||◌, ltb, ◌==◌}

unfoldable pub make_archive_version : ℕ → ℕ → ℕ → ℕ
make_archive_version major minor rev = (major * 256 + minor) * 256 + rev

-- BackupVersions["1.minor"].
unfoldable pub backup_version : ℕ → ℕ
unfolding make_archive_version
backup_version minor = make_archive_version 1 minor 0

-- Whether an archive holds the third part of its version.
unfoldable pub has_rev : ℕ → ℕ → Bool
has_rev major minor = ltb 1 major || (major == 1 && ltb 0 minor)

-- The minor part of MaxVersion.
abbrev pub max_minor : ℕ
max_minor = 16

abbrev pub arch_tar : ℕ
arch_tar = 3

abbrev pub invalid_oid : ℕ
invalid_oid = 0

abbrev pub pg_compression_none : ℕ
pg_compression_none = 0

abbrev pub pg_compression_gzip : ℕ
pg_compression_gzip = 1

abbrev pub section_none : ℕ
section_none = 1

abbrev pub section_pre_data : ℕ
section_pre_data = 2

abbrev pub section_data : ℕ
section_data = 3

abbrev pub section_post_data : ℕ
section_post_data = 4
