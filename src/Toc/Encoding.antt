-- ===== src/Toc/Encoding.antt =====
-- The bytes of one value in an archive: a sign byte and four bytes, the least first, and a string
-- behind its length.
use greenmask.Common.{
  ℕ, ◌-◌, ◌/◌, ◌%◌, ◌<◌, ◌^◌, Bytes, Option, none, some, [], ◌∷◌, ◌++◌, if◌then◌else◌, length,
  is_neg32, neg32,
}

abbrev pub magnitude_bytes : ℕ → Bytes
magnitude_bytes x = (x % 256) ∷ (x / 2 ^ 8 % 256) ∷ (x / 2 ^ 16 % 256) ∷ (x / 2 ^ 24 % 256) ∷ []

abbrev pub int_bytes : ℕ → Bytes
int_bytes x = if is_neg32 x then 1 ∷ magnitude_bytes (neg32 x) else 0 ∷ magnitude_bytes x

abbrev pub str_bytes : Option Bytes → Bytes
str_bytes none = int_bytes (2 ^ 32 - 1)
str_bytes (some s) = int_bytes (length s) ++ s

-- The length of a string has to fit an int32.
abbrev pub FitsStr : Option Bytes → Type 0
FitsStr none = Unit
FitsStr (some s) = length s < 2 ^ 31
