-- ===== src/Generators/Limits.antt =====
-- transformers/random_int64.go and noise_int64.go: the limiters. An int64 is its bit pattern.
pub mod Bounds
use greenmask.Common.{
  ℕ, ◌+◌, ◌-◌, ◌%◌, ◌^◌, ◌≤◌, ◌<◌, ◌≡◌, ◌⊎◌, inl, inr, refl, Bool, true, false, not, Bool-cases,
  Result, ok, err, panicked, wrong_limits, if◌then◌else◌, ◌==◌, IsWord64, is_neg64, biased64,
  lt_int64, rem_int64, arith,
}
use native.Mathlib.Nat.{mod-lt, mod-eq_of_lt, mod_self}
use greenmask.Common.{le→leb, lt→leb_false, ==_iff, ap, sym, ◌∙◌, ◌≢◌, ltb→lt, leb→le}

pub record Int64Limiter : Type 0 where
  pub min_value : ℕ
  pub max_value : ℕ
  pub distance : ℕ

-- `uint64(maxValue - minValue)`
abbrev pub distance_of : ℕ → ℕ → ℕ
distance_of min_value max_value = (max_value + (2 ^ 64 - min_value)) % 2 ^ 64

unfoldable pub new_int64_limiter : ℕ → ℕ → Result Int64Limiter
new_int64_limiter min_value max_value =
    if not (lt_int64 min_value max_value)
    then err wrong_limits
    else ok record {
      min_value = min_value;
      max_value = max_value;
      distance = distance_of min_value max_value;
    }

-- `x % y` panics when y is 0.
abbrev pub rem_or_panic : ℕ → ℕ → Result ℕ
rem_or_panic x y = if y == 0 then panicked else ok (rem_int64 x y)

-- `res % l.MinValue` or `res % l.MaxValue`
abbrev pub fold_back : ℕ → ℕ → ℕ → Result ℕ
fold_back min_value max_value res =
    if is_neg64 res then rem_or_panic res min_value else rem_or_panic res max_value

unfoldable pub limit : Int64Limiter → ℕ → Result ℕ
limit l v =
    if l.distance == 0
    then panicked
    else fold_back l.min_value l.max_value ((l.min_value + v % l.distance) % 2 ^ 64)

pub record NoiseInt64Limiter : Type 0 where
  pub min_value : ℕ
  pub max_value : ℕ

unfoldable pub new_noise_int64_limiter : ℕ → ℕ → Result NoiseInt64Limiter
new_noise_int64_limiter min_value max_value =
    if not (lt_int64 min_value max_value)
    then err wrong_limits
    else ok record { min_value = min_value; max_value = max_value }

unfoldable pub clamp : NoiseInt64Limiter → ℕ → ℕ
clamp l v =
    if lt_int64 v l.min_value
    then l.min_value
    else if lt_int64 l.max_value v
    then l.max_value
    else v

-- `low ≤ x < high` on int64 patterns.
abbrev pub Within : ℕ → ℕ → ℕ → Type 0
Within low high x = (biased64 low ≤ biased64 x) × (biased64 x < biased64 high)
