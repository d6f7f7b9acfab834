-- ===== src/PgCopy/RoundTrip.antt =====
-- EncodeAttr and DecodeAttr against one another.
use greenmask.Common.{
  ℕ, zero, suc, ◌≡◌, ◌≢◌, refl, sym, ap, ◌∙◌, Bytes, [], ◌∷◌, ◌++◌, append_assoc, append-nil, Bool,
  true, false, not, ◌&&◌, ◌||◌, ltb, if◌then◌else◌, inl, inr, Bool-cases, arith, ok, bytes_eq, All,
  All-append, length,
}
use greenmask.PgCopy.Value.{RawValue, delimiter, backslash, null_seq}
use greenmask.PgCopy.Encoder.{
  starts_marker, escape_byte, emitted, skipped, encode_loop, encode_attr,
}
use greenmask.PgCopy.Decoder.{decode_loop, decode_attr}
use greenmask.PgCopy.Decoder.Steps.{
  is_bare_control, decode_escape_byte, decode_marker, decode_bare_control,
}

abbrev at_marker : ℕ → Bytes → Bool
at_marker c rest = starts_marker b'N' c rest || starts_marker b'.' c rest

encode_loop-acc :
    (bytes : Bytes) (skip : ℕ) (buf : Bytes)
    → encode_loop bytes skip buf ≡ buf ++ encode_loop bytes skip []
unfolding encode_loop
encode_loop-acc [] skip buf = sym (append-nil buf)
encode_loop-acc (c ∷ bytes) zero buf =
    encode_loop-acc bytes (skipped c bytes) (buf ++ emitted c bytes)
    ∙ append_assoc buf (emitted c bytes) (encode_loop bytes (skipped c bytes) [])
    ∙ ap (λ b. buf ++ b) (sym (encode_loop-acc bytes (skipped c bytes) (emitted c bytes)))
encode_loop-acc (c ∷ bytes) (suc skip) buf = encode_loop-acc bytes skip buf

encode_loop_step :
    (c : ℕ) (bytes : Bytes)
    → encode_loop (c ∷ bytes) 0 [] ≡ emitted c bytes ++ encode_loop bytes (skipped c bytes) []
encode_loop_step c bytes =
    unfold encode_loop in encode_loop-acc bytes (skipped c bytes) (emitted c bytes)

-- No byte is a bare control character, and a marker stands at most at the end.
-- No bare control character, and no marker that other bytes follow.
abbrev pub is_encodable : Bytes → Bool
is_encodable [] = true
is_encodable (c ∷ rest) =
    not (is_bare_control c) && (not (at_marker c rest && ltb 1 (length rest)) && is_encodable rest)

-- A byte that starts no marker.
ordinary :
    (c : ℕ) (rest : Bytes)
    → at_marker c rest ≡ false
    → (emitted c rest ≡ escape_byte c) × (skipped c rest ≡ 0)
unfolding emitted skipped
ordinary c rest h = (ground arith, rw h)

decode_ordinary :
    (c : ℕ) (rest more buf : Bytes)
    → is_bare_control c ≡ false
    → at_marker c rest ≡ false
    → decode_loop (emitted c rest ++ more) 0 buf false ≡ decode_loop more 0 (buf ++ c ∷ []) false
decode_ordinary c rest more buf h k = rw ((ordinary c rest k).0) (decode_escape_byte c more buf h)

-- A marker at the end is written behind a backslash.
final_marker :
    (c d : ℕ)
    → at_marker c (d ∷ []) ≡ true
    → (encode_loop (c ∷ d ∷ []) 0 [] ≡ backslash ∷ backslash ∷ d ∷ [])
      × (c ≡ backslash)
      × (d ≢ backslash)
unfolding encode_loop emitted skipped
final_marker c d h = ground arith

module _ (c : ℕ) (rest : Bytes)
    (keep : (buf : Bytes)
      → decode_loop (encode_loop rest 0 []) 0 buf false
        ≡ decode_loop [] 0 (buf ++ rest) false) where
  decode_first :
      (buf : Bytes)
      → is_bare_control c ≡ false
      → at_marker c rest ≡ false
      → decode_loop (encode_loop (c ∷ rest) 0 []) 0 buf false
        ≡ decode_loop [] 0 (buf ++ c ∷ rest) false
  decode_first buf h k =
      ap (λ b. decode_loop b 0 buf false) (encode_loop_step c rest)
      ∙ decode_ordinary c rest (encode_loop rest (skipped c rest) []) buf h k
      ∙ ap (λ n. decode_loop (encode_loop rest n []) 0 (buf ++ c ∷ []) false) (ordinary c rest k).1
      ∙ keep (buf ++ c ∷ [])
      ∙ ap (λ b. decode_loop [] 0 b false) (append_assoc buf (c ∷ []) rest)

decode-encode_loop :
    (bytes buf : Bytes)
    → is_encodable bytes ≡ true
    → decode_loop (encode_loop bytes 0 []) 0 buf false ≡ decode_loop [] 0 (buf ++ bytes) false
decode-encode_loop [] buf h = unfold encode_loop in rw append-nil
decode-encode_loop (c ∷ []) buf h =
    decode_first c [] (λ b. decode-encode_loop [] b refl) buf (ground arith)
      (unfold starts_marker in refl)
decode-encode_loop (c ∷ d ∷ []) buf h = elim (Bool-cases (at_marker c (d ∷ []))) [
  | inl e ↦
      let (written, start, other) = final_marker c d e in
      ap (λ b. decode_loop b 0 buf false) written
      ∙ decode_marker d [] buf other
      ∙ ap (λ b. decode_loop [] 0 (buf ++ b ∷ d ∷ []) false) (sym start)
  | inr e ↦
      decode_first c (d ∷ []) (λ b. decode-encode_loop (d ∷ []) b (ground arith)) buf (ground arith)
        e
]
decode-encode_loop (c ∷ d ∷ x ∷ rest) buf h =
    decode_first c (d ∷ x ∷ rest) (λ b. decode-encode_loop (d ∷ x ∷ rest) b (ground arith)) buf
      (ground arith) (ground arith)

first_not_null : (c : ℕ) (rest more : Bytes) → bytes_eq (emitted c rest ++ more) null_seq ≡ false
unfolding emitted
first_not_null c [] more = ground arith
first_not_null c (d ∷ rest) more = ground arith

-- The encoding of bytes that are not the null value is never the null marker.
pub encode-ne-null : (bytes : Bytes) → bytes_eq (encode_loop bytes 0 []) null_seq ≡ false
encode-ne-null [] = unfold encode_loop in refl
encode-ne-null (c ∷ bytes) = rw encode_loop_step (first_not_null c bytes _)

abbrev pub canonical : RawValue → RawValue
canonical v = if v.is_null then record { bytes = []; is_null = true } else v

decode_bytes :
    (bytes : Bytes)
    → is_encodable bytes ≡ true
    → decode_attr (encode_loop bytes 0 []) [] ≡ ok (record { bytes = bytes; is_null = false })
unfolding decode_attr
decode_bytes bytes h = rw (encode-ne-null bytes) (decode-encode_loop bytes [] h)

-- A value with no bare control character and no marker that other bytes follow is decoded from its
-- encoding; a null value comes back as the null value with no bytes.
pub decode-encode :
    (v : RawValue)
    → is_encodable v.bytes ≡ true
    → decode_attr (encode_attr v []) [] ≡ ok (canonical v)
unfolding decode_attr encode_attr
decode-encode v h = elim (Bool-cases v.is_null) [
  | inl e ↦ rw e
  | inr e ↦ rw e (decode_bytes v.bytes h)
]

-- A byte that ends no field and no row.
abbrev pub IsSafe : ℕ → Type 0
IsSafe c = (c ≢ delimiter) × (c ≢ b'\n')

emitted-IsSafe : (c : ℕ) (rest : Bytes) → All IsSafe (emitted c rest)
unfolding emitted
emitted-IsSafe c [] = ground arith
emitted-IsSafe c (d ∷ rest) = ground arith

encode_loop_skip :
    (c skip : ℕ) (bytes : Bytes) → encode_loop (c ∷ bytes) (suc skip) [] ≡ encode_loop bytes skip []
unfolding encode_loop
encode_loop_skip c skip bytes = refl

encode_loop-IsSafe : (bytes : Bytes) (skip : ℕ) → All IsSafe (encode_loop bytes skip [])
encode_loop-IsSafe [] skip = unfold encode_loop in tt
encode_loop-IsSafe (c ∷ bytes) zero = rw (encode_loop_step c bytes) (
    All-append IsSafe (emitted c bytes) _ (emitted-IsSafe c bytes)
      (encode_loop-IsSafe bytes (skipped c bytes)))
encode_loop-IsSafe (c ∷ bytes) (suc skip) = rw encode_loop_skip (encode_loop-IsSafe bytes skip)

-- The encoding of any value has no tab and no line feed.
pub encode-IsSafe : (v : RawValue) → All IsSafe (encode_attr v [])
unfolding encode_attr
encode-IsSafe v = elim (Bool-cases v.is_null) [
  | inl e ↦ rw e (omega arith)
  | inr e ↦ rw e (encode_loop-IsSafe v.bytes 0)
]

marker_then :
    (x : ℕ) (rest : Bytes)
    → encode_loop (backslash ∷ b'N' ∷ x ∷ rest) 0 []
      ≡ backslash ∷ backslash ∷ b'N' ∷ encode_loop rest 0 []
unfolding encode_loop emitted skipped
marker_then x rest = encode_loop-acc rest 0 (backslash ∷ backslash ∷ b'N' ∷ [])

-- Two values that start with the null marker and differ only in the byte behind it have one
-- encoding.
pub encode_loses_byte :
    (x y : ℕ) (rest : Bytes)
    → encode_attr (record { bytes = backslash ∷ b'N' ∷ x ∷ rest; is_null = false }) []
      ≡ encode_attr (record { bytes = backslash ∷ b'N' ∷ y ∷ rest; is_null = false }) []
unfolding encode_attr
encode_loses_byte x y rest = marker_then x rest ∙ sym (marker_then y rest)

-- The value of one control character that has no escape letter is decoded from its encoding as that
-- character twice.
pub decode-encode_doubles :
    (c : ℕ)
    → is_bare_control c ≡ true
    → decode_attr (encode_attr (record { bytes = c ∷ []; is_null = false }) []) []
      ≡ ok (record { bytes = c ∷ c ∷ []; is_null = false })
unfolding decode_attr encode_attr encode_loop
decode-encode_doubles c h =
    let one = ordinary c [] (unfold starts_marker in refl) in
    rw (encode-ne-null (c ∷ [])) (
      ap (λ b. decode_loop b 0 [] false)
        (encode_loop_step c [] ∙ ap (λ b. b ++ encode_loop [] (skipped c []) []) one.0)
      ∙ decode_bare_control c (encode_loop [] (skipped c []) []) [] h)
