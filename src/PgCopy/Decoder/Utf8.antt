-- ===== src/PgCopy/Decoder/Utf8.antt =====
-- utf8.Valid of Go's standard library, which DecodeAttr calls.
use greenmask.Common.{
  ℕ, zero, suc, Bytes, [], ◌∷◌, Bool, true, false, ◌&&◌, leb, ltb, ◌==◌, if◌then◌else◌, ◌≡◌, refl,
}

-- How many continuation bytes a first byte wants, and the range of the first of them; `ok` is false
-- for a byte that starts no code point.
record Lead : Type 0 where
  ok : Bool
  more : ℕ
  low : ℕ
  high : ℕ

lead : ℕ → Lead
lead b =
    if ltb b 0x80
    then record { ok = true; more = 0; low = 0x80; high = 0xbf }
    else if ltb b 0xc2
    then record { ok = false; more = 0; low = 0x80; high = 0xbf }
    else if ltb b 0xe0
    then record { ok = true; more = 1; low = 0x80; high = 0xbf }
    else if ltb b 0xf0
    then record {
      ok = true;
      more = 2;
      low = if b == 0xe0 then 0xa0 else 0x80;
      high = if b == 0xed then 0x9f else 0xbf;
    }
    else record {
      ok = leb b 0xf4;
      more = 3;
      low = if b == 0xf0 then 0x90 else 0x80;
      high = if b == 0xf4 then 0x8f else 0xbf;
    }

-- `more` continuation bytes are wanted, the next one from `low` to `high`.
continued : Bytes → ℕ → ℕ → ℕ → Bool
unfolding lead
continued [] zero low high = true
continued [] (suc more) low high = false
continued (b ∷ s) zero low high =
    (lead b).ok && continued s (lead b).more (lead b).low (lead b).high
continued (b ∷ s) (suc more) low high = leb low b && leb b high && continued s more 0x80 0xbf

unfoldable pub utf8_valid : Bytes → Bool
unfolding continued
utf8_valid s = continued s 0 0x80 0xbf

euro_sign : utf8_valid (0x61 ∷ 0xe2 ∷ 0x82 ∷ 0xac ∷ []) ≡ true
unfolding utf8_valid
euro_sign = refl

surrogate : utf8_valid (0xed ∷ 0xa0 ∷ 0x80 ∷ []) ≡ false
unfolding utf8_valid
surrogate = refl
