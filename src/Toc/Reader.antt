-- ===== src/Toc/Reader.antt =====
-- toc/reader.go: the reader's state and the functions that read one value. The io.Reader is the
-- list of the bytes that are left, after which it reports the end of the input.
pub mod Reads
pub mod Header
pub mod Entries
pub mod Read
pub mod Termination
pub mod HeaderEnds
pub mod EntriesEnds
pub mod Total
use greenmask.Common.{
  ℕ, ◌+◌, ◌*◌, ◌^◌, ◌%◌, Bytes, Option, none, some, [], ◌∷◌, Bool, not, Exec, pure, raise, panic,
  label, modify, get_state, ◌>>=◌, ◌>>◌, ok, err, unexpected_eof, unsupported_int_size,
  zero_version, ltb, leb, ◌==◌, if◌then◌else◌, length, take, drop, is_neg32, neg32,
}
use greenmask.Toc.Version.{backup_version}

pub record Reader : Type 0 where
  pub input : Bytes
  pub int_size : ℕ
  pub version : ℕ
  pub position : ℕ
  pub max_dump_id : ℕ

unfoldable pub new_reader : Bytes → Reader
new_reader input = record {
  input = input;
  int_size = 0;
  version = 0;
  position = 0;
  max_dump_id = 0;
}

unfoldable pub prune : Reader → Reader
prune s = record s { int_size = 0; version = 0; position = 0; max_dump_id = 0 }

-- io.ReadFull over a buffer of n bytes.
read_full : ℕ → Exec Reader Bytes
read_full n s =
    if leb n (length s.input)
    then ok (take n s.input, record s { input = drop n s.input })
    else err unexpected_eof

-- `r.position += n`
advance : ℕ → Reader → Reader
advance n s = record s { position = s.position + n }

pub read_bytes : ℕ → Exec Reader Bytes
unfolding read_full advance
read_bytes n = do bytes ← read_full n; modify (advance n); pure bytes

-- `res[0]`
first : Bytes → Exec Reader ℕ
first [] = panic
first (b ∷ _) = pure b

pub read_byte : Exec Reader ℕ
unfolding read_bytes first
read_byte = do res ← read_bytes 1; first res

-- The loop over intBytes: `res + (int32(bv) << bitShift)`.
assemble : Bytes → ℕ → ℕ → ℕ
assemble [] bit_shift res = res
assemble (b ∷ bytes) bit_shift res =
    assemble bytes (bit_shift + 8)
      (if b == 0 then res else (res + b * 2 ^ bit_shift % 2 ^ 32) % 2 ^ 32)

-- The sign byte, which archives of version 1.0 do not have.
read_sign : ℕ → Exec Reader ℕ
read_sign version =
    if ltb (backup_version 0) version then label "cannot read srcFile byte" read_byte else pure 0

value_of : ℕ → Bytes → ℕ
unfolding assemble
value_of sign int_bytes =
    if sign == 0 then assemble int_bytes 0 0 else neg32 (assemble int_bytes 0 0)

read_signed : ℕ → ℕ → Exec Reader ℕ
unfolding read_full advance read_sign value_of
read_signed int_size version = do
  sign ← read_sign version
  int_bytes ← read_full int_size
  modify (advance int_size)
  pure (value_of sign int_bytes)

pub read_int : Exec Reader ℕ
unfolding read_signed
read_int = do
  s ← get_state
  if not (s.int_size == 4)
      then raise unsupported_int_size
      else if s.version == 0
      then raise zero_version
      else read_signed s.int_size s.version

pub read_str : Exec Reader (Option Bytes)
unfolding read_full advance
read_str = do
  l ← read_int
  if is_neg32 l then pure none else do buf ← read_full l; modify (advance l); pure (some buf)

-- `if r.version >= BackupVersions["1.minor"] { … } else { … }`
unfoldable pub since : {A : Type 0} → ℕ → Exec Reader A → Exec Reader A → Exec Reader A
since minor m n s = if leb (backup_version minor) s.version then m s else n s
