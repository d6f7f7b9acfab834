-- ===== src/Toc/Writer.antt =====
-- toc/writer.go: the writer's state and the functions that write one value. The io.Writer is the
-- bytes that it took so far with the number that it will still take; past that it reports an error.
pub mod Emits
pub mod Header
pub mod Entries
pub mod Write
use greenmask.Common.{
  ℕ, zero, suc, ◌+◌, ◌-◌, ◌%◌, ◌^◌, Bytes, Option, none, some, [], ◌∷◌, ◌++◌, Exec, pure, label,
  ◌>>=◌, ◌>>◌, ok, err, short_write, leb, if◌then◌else◌, length, is_neg32, neg32, shr8_int32,
}
use greenmask.Toc.Version.{backup_version}

pub record Writer : Type 0 where
  pub out : Bytes
  pub room : ℕ
  pub int_size : ℕ
  pub version : ℕ
  pub position : ℕ

unfoldable pub new_writer : ℕ → Writer
new_writer room = record { out = []; room = room; int_size = 0; version = 0; position = 0 }

unfoldable pub prune : Writer → Writer
prune s = record s { int_size = 0; version = 0; position = 0 }

pub write_buf : Bytes → Exec Writer (Unit {0})
write_buf buf s =
    if leb (length buf) s.room
    then ok (
      tt,
      record s {
        out = s.out ++ buf;
        room = s.room - length buf;
        position = s.position + length buf;
      },
    )
    else err short_write

pub write_byte : ℕ → Exec Writer (Unit {0})
write_byte b = label "cannot write byte data" (write_buf (b ∷ []))

-- `for b = 0; b < int32(w.intSize); b++`; an int32 has no bits left after four rounds.
write_rounds : ℕ → ℕ → Exec Writer (Unit {0})
write_rounds zero i = pure tt
write_rounds (suc n) i = do
  label "unable to write int byte" (write_byte (i % 256))
  write_rounds n (shr8_int32 i)

write_magnitude : ℕ → Exec Writer (Unit {0})
unfolding write_rounds
write_magnitude i s = write_rounds (if is_neg32 s.int_size then 0 else s.int_size) i s

pub write_int : ℕ → Exec Writer (Unit {0})
unfolding write_magnitude
write_int i =
    if is_neg32 i
    then (do label "unable to write sign byte" (write_byte 1); write_magnitude (neg32 i))
    else (do label "unable to write sign byte" (write_byte 0); write_magnitude i)

-- The int32 whose pattern this is is -1.
abbrev minus_one : ℕ
minus_one = 2 ^ 32 - 1

pub write_str : Option Bytes → Exec Writer (Unit {0})
write_str (some s) = do
  label "unable to write str length" (write_int (length s % 2 ^ 32))
  label "unable to write string buffer" (write_buf s)
write_str none = label "unable to write empty string" (write_int minus_one)

-- `if w.version >= BackupVersions["1.minor"] { … }`
unfoldable pub since : ℕ → Exec Writer (Unit {0}) → Exec Writer (Unit {0})
since minor m s = if leb (backup_version minor) s.version then m s else ok (tt, s)
