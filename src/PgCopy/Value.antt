-- ===== src/PgCopy/Value.antt =====
-- The constants of pgcopy/common.go, and RawValue of pkg/toolkit.
use greenmask.Common.{ℕ, Bytes, Bool, ◌∷◌, []}

pub record RawValue : Type 0 where
  pub bytes : Bytes
  pub is_null : Bool

abbrev pub delimiter : ℕ
delimiter = b'\t'

abbrev pub backslash : ℕ
backslash = b'\\'

abbrev pub null_seq : Bytes
null_seq = backslash ∷ b'N' ∷ []
