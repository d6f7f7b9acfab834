-- ===== src/Common/Decimal.antt =====
-- What the code uses of Go's strconv: FormatUint, FormatInt, ParseUint and ParseInt in base 10,
-- the last two at 32 bits.
use Prim.Native.Nat.{ℕ, zero, suc, ◌+◌, ◌-◌, ◌*◌, ◌/◌, ◌%◌, ◌^◌, ◌≤◌, ◌<◌}
use mathlib.Core.Path.{◌≡◌, refl, ap, ◌∙◌}
use mathlib.Core.Logic.{◌≢◌, inl, inr}
use mathlib.Core.Bool.{Bool, true, false, ◌||◌}
use mathlib.Core.List.{[], ◌∷◌}
use native.Mathlib.Nat.{pow-suc}
use native.Mathlib.Omega.{arith}
use greenmask.Common.Tests.{ltb, leb, ◌==◌, if◌then◌else◌, Bool-cases}
use greenmask.Common.Lists.{Bytes, length}
use greenmask.Common.Word.{IsWord32, is_neg32, neg32}
use greenmask.Common.Effects.{Error, Result, ok, err, panicked, stuck, invalid_syntax, out_of_range}

-- The digits of `n` in front of `out`; a uint64 has at most twenty.
digits : ℕ → ℕ → Bytes → Bytes
digits zero n out = out
digits (suc fuel) n out =
    let more = digits fuel (n / 10) ((b'0' + n % 10) ∷ out) in
    if n / 10 == 0 then (b'0' + n % 10) ∷ out else more

unfoldable pub format_uint : ℕ → Bytes
unfolding digits
format_uint n = digits 20 n []

unfoldable pub format_int32 : ℕ → Bytes
unfolding format_uint
format_int32 x = if is_neg32 x then b'-' ∷ format_uint (neg32 x) else format_uint x

scan : Bytes → ℕ → Result ℕ
scan [] n = ok n
scan (c ∷ s) n =
    if ltb c b'0' || ltb b'9' c
    then err invalid_syntax
    else if leb (2 ^ 32) (n * 10 + (c - b'0'))
    then err out_of_range
    else scan s (n * 10 + (c - b'0'))

unfoldable pub parse_uint32 : Bytes → Result ℕ
unfolding scan
parse_uint32 [] = err invalid_syntax
parse_uint32 (c ∷ s) = scan (c ∷ s) 0

-- The bounds of an int32 on the magnitude that ParseUint returned.
signed : Bool → Result ℕ → Result ℕ
signed false (ok n) = if leb (2 ^ 31) n then err out_of_range else ok n
signed true (ok n) = if ltb (2 ^ 31) n then err out_of_range else ok (neg32 n)
signed negative (err e) = err e
signed negative panicked = panicked
signed negative stuck = stuck

unfoldable pub parse_int32 : Bytes → Result ℕ
unfolding parse_uint32 signed
parse_int32 [] = err invalid_syntax
parse_int32 (c ∷ s) =
    if c == b'-'
    then signed true (parse_uint32 s)
    else if c == b'+'
    then signed false (parse_uint32 s)
    else signed false (parse_uint32 (c ∷ s))

scan_digit : (n : ℕ) (out : Bytes) → n < 2 ^ 32 → scan ((b'0' + n % 10) ∷ out) (n / 10) ≡ scan out n
unfolding scan
scan_digit n out h = ground arith

scan-digits :
    (fuel n : ℕ) (out : Bytes)
    → n < 10 ^ fuel
    → n < 2 ^ 32
    → scan (digits fuel n out) 0 ≡ scan out n
unfolding digits
scan-digits zero n out bound h = ap (scan out) (omega arith)
scan-digits (suc fuel) n out bound h =
    ground (
      arith,
      pow-suc 10 fuel,
      scan_digit n out h,
      scan-digits fuel (n / 10) ((b'0' + n % 10) ∷ out),
    )

-- The text is neither empty nor signed.
abbrev IsPlain : Bytes → Type 0
IsPlain s = (parse_uint32 s ≡ scan s 0) × (parse_int32 s ≡ signed false (scan s 0))

digit-IsPlain : (d : ℕ) (out : Bytes) → d < 10 → IsPlain ((b'0' + d) ∷ out)
unfolding parse_uint32
digit-IsPlain d out h = (refl, unfold parse_int32 in ground arith)

digits-IsPlain : (fuel n : ℕ) (out : Bytes) → IsPlain (digits (suc fuel) n out)
unfolding digits
digits-IsPlain zero n out =
    let first = digit-IsPlain (n % 10) out (omega arith) in
    elim (Bool-cases (n / 10 == 0)) [ inl e ↦ rw e first | inr e ↦ rw e first ]
digits-IsPlain (suc fuel) n out = elim (Bool-cases (n / 10 == 0)) [
  | inl e ↦ rw e (digit-IsPlain (n % 10) out (omega arith))
  | inr e ↦ rw e (digits-IsPlain fuel (n / 10) ((b'0' + n % 10) ∷ out))
]

scan-format_uint : (n : ℕ) → IsWord32 n → scan (format_uint n) 0 ≡ ok n
unfolding format_uint scan
scan-format_uint n h = scan-digits 20 n [] (omega arith) h

format_uint-IsPlain : (n : ℕ) → IsPlain (format_uint n)
unfolding format_uint
format_uint-IsPlain n = digits-IsPlain 19 n []

pub parse_uint32-format_uint : (n : ℕ) → IsWord32 n → parse_uint32 (format_uint n) ≡ ok n
parse_uint32-format_uint n h = (format_uint-IsPlain n).0 ∙ scan-format_uint n h

parse_int32_minus :
    (n : ℕ) → parse_int32 (b'-' ∷ format_uint n) ≡ signed true (scan (format_uint n) 0)
unfolding parse_int32
parse_int32_minus n = ap (signed true) (format_uint-IsPlain n).0

length-digits : (fuel n : ℕ) (out : Bytes) → length (digits fuel n out) ≤ fuel + length out
unfolding digits
length-digits zero n out = omega arith
length-digits (suc fuel) n out = ground (arith, length-digits fuel (n / 10) ((b'0' + n % 10) ∷ out))

-- The prints are short: their lengths fit an int32.
pub length-format_uint : (n : ℕ) → length (format_uint n) ≤ 20
unfolding format_uint
length-format_uint n = length-digits 20 n []

pub length-format_int32 : (x : ℕ) → length (format_int32 x) ≤ 21
unfolding format_int32
length-format_int32 x = ground (arith, length-format_uint x, length-format_uint (neg32 x))

-- Every int32, the least one included, is read back from its print.
pub parse_int32-format_int32 : (x : ℕ) → IsWord32 x → parse_int32 (format_int32 x) ≡ ok x
unfolding format_int32
parse_int32-format_int32 x h = elim (Bool-cases (is_neg32 x)) [
  | inl e ↦ rw e (
      parse_int32_minus (neg32 x)
      ∙ ap (signed true) (scan-format_uint (neg32 x) (omega arith))
      ∙ unfold signed in ground arith)
  | inr e ↦ rw e (
      (format_uint-IsPlain x).1
      ∙ ap (signed false) (scan-format_uint x h)
      ∙ unfold signed in ground arith)
]

-- Parsing ends.
err-ne-stuck : (x : Error) → ◌≢◌ {A = Result ℕ} (err x) stuck
err-ne-stuck x e = grind arith

ok-ne-stuck : (n : ℕ) → ok n ≢ stuck
ok-ne-stuck n e = grind arith

scan-ends : (s : Bytes) (n : ℕ) → scan s n ≢ stuck
unfolding scan
scan-ends [] n = ok-ne-stuck n
scan-ends (c ∷ s) n = elim (Bool-cases (ltb c b'0' || ltb b'9' c)) [
  | inl e ↦ rw e (err-ne-stuck invalid_syntax)
  | inr e ↦ elim (Bool-cases (leb (2 ^ 32) (n * 10 + (c - b'0')))) [
    | inl e' ↦ rw (e, e') (err-ne-stuck out_of_range)
    | inr e' ↦ rw (e, e') (scan-ends s (n * 10 + (c - b'0')))
  ]
]

pub parse_uint32-ends : (s : Bytes) → parse_uint32 s ≢ stuck
unfolding parse_uint32
parse_uint32-ends [] = err-ne-stuck invalid_syntax
parse_uint32-ends (c ∷ s) = scan-ends (c ∷ s) 0

signed-ends : (negative : Bool) (r : Result ℕ) → r ≢ stuck → signed negative r ≢ stuck
unfolding signed
signed-ends false (ok n) ne = elim (Bool-cases (leb (2 ^ 31) n)) [
  | inl e ↦ rw e (err-ne-stuck out_of_range)
  | inr e ↦ rw e (ok-ne-stuck n)
]
signed-ends true (ok n) ne = elim (Bool-cases (ltb (2 ^ 31) n)) [
  | inl e ↦ rw e (err-ne-stuck out_of_range)
  | inr e ↦ rw e (ok-ne-stuck (neg32 n))
]
signed-ends false (err x) ne = ne
signed-ends true (err x) ne = ne
signed-ends false panicked ne = ne
signed-ends true panicked ne = ne
signed-ends false stuck ne = absurd (ne refl)
signed-ends true stuck ne = absurd (ne refl)

pub parse_int32-ends : (s : Bytes) → parse_int32 s ≢ stuck
unfolding parse_int32
parse_int32-ends [] = err-ne-stuck invalid_syntax
parse_int32-ends (c ∷ s) = elim (Bool-cases (c == b'-')) [
  | inl e ↦ rw e (signed-ends true (parse_uint32 s) (parse_uint32-ends s))
  | inr e ↦ elim (Bool-cases (c == b'+')) [
    | inl e' ↦ rw (e, e') (signed-ends false (parse_uint32 s) (parse_uint32-ends s))
    | inr e' ↦ rw (e, e') (signed-ends false (parse_uint32 (c ∷ s)) (parse_uint32-ends (c ∷ s)))
  ]
]
