-- ===== src/Generators/Integers.antt =====
-- transformers/random_int64.go, noise_int64.go and random_boolean.go: Transform.
use greenmask.Common.{
  ℕ, ◌%◌, Bytes, Option, none, some, Bool, Exec, pure, panic, lift, ◌>>=◌, get_elem?, ◌==◌,
}
use greenmask.Generators.{Generator, build_int64_from_bytes, build_uint64_from_bytes, slice_to}
use greenmask.Generators.Limits.{Int64Limiter, NoiseInt64Limiter, limit, clamp}

-- `limiter := ig.limiter; if l != nil { limiter = l }`
abbrev pub effective : {A : Type 0} → Option A → Option A → Option A
effective none own = own
effective (some l) own = some l

abbrev pub limited : {S : Type 0} → Option Int64Limiter → Bytes → Exec S ℕ
limited none bytes = build_int64_from_bytes bytes
limited (some l) bytes = do v ← build_uint64_from_bytes bytes; lift (limit l v)

unfoldable pub transform_int64 :
    {S : Type 0} → Generator S → Option Int64Limiter → Option Int64Limiter → Bytes → Exec S ℕ
transform_int64 g own l original = g.generate original >>= limited (effective l own)

-- `res[i]`
abbrev pub byte_at : {S : Type 0} → ℕ → Bytes → Exec S ℕ
byte_at i bytes = elim (get_elem? bytes i) [ none ↦ panic | some b ↦ pure b ]

abbrev pub clamped : Option NoiseInt64Limiter → ℕ → ℕ
clamped none res = res
clamped (some l) res = clamp l res

-- The noise is floating point: the product of the ratio and the number, which the processor
-- computes from the random number, the sign and the number, is a parameter.
module _ {S : Type 0} (print : ℕ → Bytes) (add_noise : ℕ → Bool → ℕ → ℕ) where
  unfoldable pub transform_noise :
      Generator S → Option NoiseInt64Limiter → Option NoiseInt64Limiter → ℕ → Exec S ℕ
  transform_noise g own l original = do
    bytes ← g.generate (print original)
    low ← slice_to 8 bytes
    random ← build_uint64_from_bytes low
    sign ← byte_at 8 bytes
    pure (clamped (effective l own) (add_noise random (sign % 2 == 0) original))

unfoldable pub transform_boolean : {S : Type 0} → Generator S → Bytes → Exec S Bool
transform_boolean g original = do
  bytes ← g.generate original
  b ← byte_at 0 bytes
  pure (b % 2 == 0)
