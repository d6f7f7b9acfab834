-- ===== src/PgCopy/Encoder.antt =====
-- pgcopy/encoder.go: EncodeAttr. The loop over indices is a recursion on the bytes from the index
-- on, and `skip` counts the indices that an iteration jumps over.
use greenmask.Common.{
  ℕ, zero, suc, Bytes, [], ◌∷◌, ◌++◌, Bool, false, ◌&&◌, ◌||◌, ltb, ◌==◌, if◌then◌else◌,
}
use greenmask.PgCopy.Value.{RawValue, delimiter, backslash, null_seq}

-- Whether the data from the index on starts with the backslash and `m`, the second byte of one of
-- the two markers.
unfoldable pub starts_marker : ℕ → ℕ → Bytes → Bool
starts_marker m c [] = false
starts_marker m c (d ∷ _) = c == backslash && d == m

-- The letter that stands for a control character, or the character where there is none.
unfoldable pub control_letter : ℕ → ℕ
control_letter c =
    if c == 8
    then b'b'
    else if c == 12
    then b'f'
    else if c == 10
    then b'n'
    else if c == 13
    then b'r'
    else if c == 9
    then b't'
    else if c == 11
    then b'v'
    else c

-- What the `default` case of the switch appends before the escape.
unfoldable pub extra_control : ℕ → Bytes
extra_control c =
    if c == 8 || c == 12 || c == 10 || c == 13 || c == 9 || c == 11 || c == delimiter
    then []
    else c ∷ []

unfoldable pub escape_byte : ℕ → Bytes
unfolding control_letter extra_control
escape_byte c =
    if ltb c 0x20
    then extra_control c ++ backslash ∷ control_letter c ∷ []
    else if c == backslash || c == delimiter
    then backslash ∷ c ∷ []
    else c ∷ []

-- What an iteration appends.
unfoldable pub emitted : ℕ → Bytes → Bytes
unfolding starts_marker escape_byte
emitted c rest =
    if starts_marker b'N' c rest
    then backslash ∷ backslash ∷ b'N' ∷ []
    else if starts_marker b'.' c rest
    then backslash ∷ backslash ∷ b'.' ∷ []
    else escape_byte c

-- `i = i + 2` before the `i++` of the loop.
unfoldable pub skipped : ℕ → Bytes → ℕ
unfolding starts_marker
skipped c rest = if starts_marker b'N' c rest || starts_marker b'.' c rest then 2 else 0

unfoldable pub encode_loop : Bytes → ℕ → Bytes → Bytes
encode_loop [] skip buf = buf
encode_loop (c ∷ rest) zero buf = encode_loop rest (skipped c rest) (buf ++ emitted c rest)
encode_loop (c ∷ rest) (suc skip) buf = encode_loop rest skip buf

unfoldable pub encode_attr : RawValue → Bytes → Bytes
encode_attr v buf = if v.is_null then null_seq else encode_loop v.bytes 0 buf
