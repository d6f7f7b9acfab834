-- ===== src/PgCopy/Decoder.antt =====
-- pgcopy/decoder.go: DecodeAttr. As in the encoder, the loop is a recursion on the bytes from the
-- index on, and `skip` counts the bytes that an escape took behind the first one.
mod Utf8
pub mod Steps
unfoldable pub use Utf8.{utf8_valid}
use greenmask.Common.{
  ℕ, zero, suc, ◌+◌, ◌-◌, ◌*◌, ◌%◌, Bytes, [], ◌∷◌, ◌++◌, Bool, true, false, not, ◌&&◌, ◌||◌, ltb,
  leb, ◌==◌, if◌then◌else◌, Option, none, some, Result, ok, panicked, bytes_eq, ◌≡◌, refl, codes,
}
use greenmask.PgCopy.Value.{RawValue, backslash, null_seq}

-- `c & highBit > 0`
is_high_bit_set : ℕ → Bool
is_high_bit_set c = leb 0x80 c

-- `c - '0'` on bytes.
octal_value : ℕ → ℕ
octal_value c = (c + 256 - b'0') % 256

is_octal : ℕ → Bool
is_octal c = leb b'0' c && leb c b'7'

is_hex_digit : ℕ → Bool
is_hex_digit c = leb b'0' c && leb c b'9' || leb b'a' c && leb c b'f' || leb b'A' c && leb c b'F'

is_digit : ℕ → Bool
is_digit c = leb b'0' c && leb c b'9'

-- unicode.ToLower on ASCII.
to_lower : ℕ → ℕ
to_lower c = if leb b'A' c && leb c b'Z' then c + 32 else c

get_decimal_from_hex : ℕ → ℕ
unfolding is_digit to_lower
get_decimal_from_hex c =
    if is_digit c then (c + 256 - b'0') % 256 else (to_lower c + 256 - b'a' + 10) % 256

-- What an escape stands for: its byte, the bytes that it took behind the first one, and whether it
-- sets `sawNonAscii`.
pub record Escape : Type 0 where
  pub byte : ℕ
  pub taken : ℕ
  pub non_ascii : Bool

-- Up to two more digits behind the first one, whose value is `val`.
octal_digits : ℕ → Bytes → ℕ × ℕ
unfolding octal_value is_octal
octal_digits val [] = (val, 0)
octal_digits val (d ∷ []) =
    if is_octal d then ((val * 8 % 256 + octal_value d) % 256, 1) else (val, 0)
octal_digits val (d ∷ e ∷ _) =
    let two = (val * 8 % 256 + octal_value d) % 256 in
    if is_octal d
    then (if is_octal e then ((two * 8 % 256 + octal_value e) % 256, 2) else (two, 1))
    else (val, 0)

octal_escape : ℕ → Bytes → Escape
unfolding octal_digits is_high_bit_set octal_value
octal_escape c rest =
    let (val, taken) = octal_digits (octal_value c) rest in
    record { byte = val; taken = taken; non_ascii = val == 0 || is_high_bit_set val }

hex_digits : Bytes → ℕ × ℕ
unfolding get_decimal_from_hex is_hex_digit
hex_digits [] = (0, 0)
hex_digits (d ∷ []) = if is_hex_digit d then (get_decimal_from_hex d, 1) else (0, 0)
hex_digits (d ∷ e ∷ _) =
    let one = get_decimal_from_hex d in
    if is_hex_digit d
    then (if is_hex_digit e then ((one * 16 % 256 + get_decimal_from_hex e) % 256, 2) else (one, 1))
    else (0, 0)

hex_escape : Bytes → Escape
unfolding hex_digits is_high_bit_set
hex_escape rest =
    let (val, taken) = hex_digits rest in
    record { byte = val; taken = taken; non_ascii = val == 0 && is_high_bit_set val }

-- The byte that a letter stands for; any other byte is taken literally.
literal : ℕ → ℕ
literal c =
    if c == b'b'
    then 8
    else if c == b'f'
    then 12
    else if c == b'n'
    then 10
    else if c == b'r'
    then 13
    else if c == b't'
    then 9
    else if c == b'v'
    then 11
    else c

-- The escape whose first byte is `c`.
unfoldable pub escape_of : ℕ → Bytes → Escape
unfolding is_octal octal_escape hex_escape literal
escape_of c rest =
    if is_octal c
    then octal_escape c rest
    else if c == b'x'
    then hex_escape rest
    else record { byte = literal c; taken = 0; non_ascii = false }

-- What an iteration does at `c`; a backslash at the end panics.
unfoldable pub decode_step : ℕ → Bytes → Option Escape
unfolding escape_of
decode_step c [] =
    if c == backslash then none else some (record { byte = c; taken = 0; non_ascii = false })
decode_step c (d ∷ rest) =
    if c == backslash
    then some (let e = escape_of d rest in record e { taken = suc e.taken })
    else some (record { byte = c; taken = 0; non_ascii = false })

-- `sawNonAscii && !utf8.Valid(buf)` panics.
unfoldable pub finish : Bytes → Bool → Result RawValue
finish buf saw_non_ascii =
    if saw_non_ascii && not (utf8_valid buf)
    then panicked
    else ok (record { bytes = buf; is_null = false })

unfoldable pub decode_loop : Bytes → ℕ → Bytes → Bool → Result RawValue
decode_loop [] skip buf saw = finish buf saw
decode_loop (c ∷ raw) (suc skip) buf saw = decode_loop raw skip buf saw
decode_loop (c ∷ raw) zero buf saw = elim (decode_step c raw) [
  | none ↦ panicked
  | some e ↦ decode_loop raw e.taken (buf ++ e.byte ∷ []) (saw || e.non_ascii)
]

unfoldable pub decode_attr : Bytes → Bytes → Result RawValue
unfolding decode_loop decode_step finish utf8_valid
decode_attr raw buf =
    if bytes_eq raw null_seq
    then ok (record { bytes = []; is_null = true })
    else decode_loop raw 0 buf false

octal_and_hex :
    decode_attr (codes "a\\101\\x4a\\tb") []
    ≡ ok (record { bytes = codes "aAJ\tb"; is_null = false })
unfolding decode_attr
octal_and_hex = refl
