-- ===== src/Generators/Strings.antt =====
-- transformers/random_string.go. The lengths are natural numbers, and a rune is its number.
use greenmask.Common.{
  ℕ, zero, suc, ◌+◌, ◌*◌, ◌-◌, ◌%◌, Bytes, List, [], ◌∷◌, Option, none, some, Result, ok, err,
  panicked, stuck, on_ok, Exec, pure, panic, ◌>>=◌, min_greater_max, length, take, drop, set, Bool,
  ltb, leb, if◌then◌else◌,
}
use greenmask.Generators.{
  Generator, HashName, get_hash_function_name_by_size, slice_to, little_endian,
}
use greenmask.Generators.Choices.{pick}
use greenmask.Generators.Integers.{byte_at}

pub record RandomString : Type 0 where
  pub characters : List ℕ
  pub min_length : ℕ
  pub max_length : ℕ
  pub byte_length : ℕ
  pub required_bytes_per_char : ℕ
  pub offset_from_min_len : ℕ
  pub buf : List ℕ

-- `make([]rune, n)`
abbrev pub make_runes : ℕ → List ℕ
make_runes zero = []
make_runes (suc n) = 0 ∷ make_runes n

abbrev pub bytes_per_char : List ℕ → ℕ
bytes_per_char chars = if ltb 256 (length chars) then 2 else 1

-- The transformer for the number of bytes of a hash.
abbrev pub with_hash : List ℕ → ℕ → ℕ → HashName × ℕ → Result RandomString
with_hash chars min_length max_length (_, byte_length) = ok record {
  characters = chars;
  min_length = min_length;
  max_length = max_length;
  byte_length = byte_length;
  required_bytes_per_char = bytes_per_char chars;
  offset_from_min_len = max_length - min_length + 1;
  buf = make_runes max_length;
}

unfoldable pub new_random_string : List ℕ → ℕ → ℕ → Result RandomString
unfolding get_hash_function_name_by_size
new_random_string chars min_length max_length =
    if ltb max_length min_length
    then err min_greater_max
    else on_ok (get_hash_function_name_by_size ((max_length + bytes_per_char chars) % 64))
        (with_hash chars min_length max_length)

-- `bytes[start:end]`
abbrev pub slice : {S : Type 0} → ℕ → ℕ → Bytes → Exec S Bytes
slice start end bytes =
    if leb end (length bytes) then pure (take (end - start) (drop start bytes)) else panic

-- getInt
abbrev pub get_int : {S : Type 0} → Bytes → Exec S ℕ
get_int bytes =
    if ltb 1 (length bytes) then pure (little_endian (take 2 bytes)) else byte_at 0 bytes

-- A round's character: `characters[(getInt(bytes[start:end]) + subIter) % len(characters)]`.
unfoldable pub char_at : {S : Type 0} → RandomString → Bytes → ℕ → ℕ → Exec S ℕ
char_at st bytes real_idx sub_iter = do
  let width = st.required_bytes_per_char
  part ← slice (real_idx * width) (real_idx * width + width) bytes
  i ← get_int part
  pick st.characters (i + sub_iter)

-- `realIdx >= len(resBytes)-1` starts over at the first byte.
abbrev pub is_last : Bytes → ℕ → Bool
is_last bytes real_idx = leb (length bytes) (real_idx + 1)

-- `st.buf[idx] = c`
abbrev pub put : {S : Type 0} → List ℕ → ℕ → ℕ → Exec S (List ℕ)
put buf idx c = if ltb idx (length buf) then pure (set buf idx c) else panic

-- The loop from round `idx` on, with the number of rounds that are left.
unfoldable pub render :
    {S : Type 0} → RandomString → Bytes → ℕ → ℕ → ℕ → ℕ → List ℕ → Exec S (List ℕ)
render st bytes idx real_idx sub_iter zero buf = pure buf
render st bytes idx real_idx sub_iter (suc n) buf = do
  let over = is_last bytes real_idx
  let real_idx' = if over then 0 else real_idx
  let sub_iter' = if over then suc sub_iter else sub_iter
  c ← char_at st bytes real_idx' sub_iter'
  buf' ← put buf idx c
  render st bytes (suc idx) (real_idx' + st.required_bytes_per_char) sub_iter' n buf'

-- `st.buf[:stringLength]`
abbrev pub first_runes : {S : Type 0} → ℕ → List ℕ → Exec S (List ℕ)
first_runes n buf = if leb n (length buf) then pure (take n buf) else panic

-- Transform behind Generate. It clears the buffer before it, so that the runes of an earlier call
-- have no part in the result.
abbrev pub render_bytes : {S : Type 0} → RandomString → Bytes → Exec S (List ℕ)
render_bytes st bytes = do
  head ← slice_to 4 bytes
  let string_length = st.min_length + little_endian head % st.offset_from_min_len
  buf ← render st (drop 4 bytes) 0 0 0 string_length (make_runes (length st.buf))
  first_runes string_length buf

-- An error of Generate is answered with a nil slice, which is `none`.
abbrev pub nil_on_error : {A S : Type 0} → S → Result (A × S) → Result (Option A × S)
nil_on_error s (ok (a, t)) = ok (some a, t)
nil_on_error s (err e) = ok (none, s)
nil_on_error s panicked = panicked
nil_on_error s stuck = stuck

abbrev pub render_if : {S : Type 0} → RandomString → Option Bytes → Exec S (Option (List ℕ))
render_if st none = pure none
render_if st (some bytes) = do out ← render_bytes st bytes; pure (some out)

unfoldable pub transform_string :
    {S : Type 0} → Generator S → RandomString → Bytes → Exec S (Option (List ℕ))
transform_string g st original = (λ s. nil_on_error s (g.generate original s)) >>= render_if st
