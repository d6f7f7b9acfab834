-- ===== src/Common/Word.antt =====
-- Machine integers as bit patterns. An int32 is its two's complement pattern below 2^32.
use Prim.Native.Nat.{ℕ, ◌+◌, ◌-◌, ◌/◌, ◌%◌, ◌^◌, ◌<◌}
use mathlib.Core.Bool.{Bool}
use greenmask.Common.Tests.{leb, ltb, if◌then◌else◌}

abbrev pub IsByte : ℕ → Type 0
IsByte b = b < 256

-- The range of a uint32, and of the pattern of an int32.
abbrev pub IsWord32 : ℕ → Type 0
IsWord32 x = x < 2 ^ 32

-- `x < 0` on an int32.
abbrev pub is_neg32 : ℕ → Bool
is_neg32 x = leb (2 ^ 31) x

-- `-x` on an int32, which maps the least value to itself.
abbrev pub neg32 : ℕ → ℕ
neg32 x = (2 ^ 32 - x) % 2 ^ 32

-- `x >> 8` on an int32: the sign bit comes in from the left.
abbrev pub shr8_int32 : ℕ → ℕ
shr8_int32 x = x / 256 + (if is_neg32 x then 0xff000000 else 0)

-- `x < y` on int32 patterns.
abbrev pub lt_int32 : ℕ → ℕ → Bool
lt_int32 x y = ltb ((x + 2 ^ 31) % 2 ^ 32) ((y + 2 ^ 31) % 2 ^ 32)

abbrev pub IsWord64 : ℕ → Type 0
IsWord64 x = x < 2 ^ 64

-- `x < 0` on an int64.
abbrev pub is_neg64 : ℕ → Bool
is_neg64 x = leb (2 ^ 63) x

-- `-x` on an int64.
abbrev pub neg64 : ℕ → ℕ
neg64 x = (2 ^ 64 - x) % 2 ^ 64

-- `x < y` on int64 patterns: the order of `biased64`, which is the value plus 2^63.
abbrev pub biased64 : ℕ → ℕ
biased64 x = (x + 2 ^ 63) % 2 ^ 64

abbrev pub lt_int64 : ℕ → ℕ → Bool
lt_int64 x y = ltb (biased64 x) (biased64 y)

abbrev pub magnitude64 : ℕ → ℕ
magnitude64 x = if is_neg64 x then neg64 x else x

-- `x % y` on int64 takes the sign of `x`; the caller checks that `y` is not zero.
abbrev pub rem_int64 : ℕ → ℕ → ℕ
rem_int64 x y =
    if is_neg64 x then neg64 (magnitude64 x % magnitude64 y) else magnitude64 x % magnitude64 y
