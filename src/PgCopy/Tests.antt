-- ===== src/PgCopy/Tests.antt =====
-- The theorems on COPY text at small values and lines.
use greenmask.Common.{
  ◌≡◌, refl, bytes_eq, codes, none, some, [], ◌∷◌, false, ok, err, on_ok, tuple_size_mismatch, All,
  arith,
}
use greenmask.PgCopy.Value.{RawValue, null_seq}
use greenmask.PgCopy.Encoder
use greenmask.PgCopy.Encoder.{encode_attr}
use greenmask.PgCopy.Decoder.{decode_attr}
use greenmask.PgCopy.Row.{ColumnPos, Row, decode, encode, get_column_raw}
use greenmask.PgCopy.Row.Columns.{join, spans, fixed}
use greenmask.PgCopy.Row.Rewrite.{
  decode-join, decode-encode-row, decode-join_overflow, get_column_raw-decode, text, texts, column,
}
use greenmask.PgCopy.RoundTrip.{
  decode-encode, encode-ne-null, encode-IsSafe, encode_loses_byte, decode-encode_doubles, canonical,
  IsSafe,
}

abbrev path_value : RawValue
path_value = record { bytes = codes "C:\\dir\t|"; is_null = false }

abbrev new_value : RawValue
new_value = record { bytes = codes "x\ty"; is_null = false }

abbrev blank_pos : ColumnPos
blank_pos = record { start = 0; end = 0 }

decode-encode_example : decode_attr (encode_attr path_value []) [] ≡ ok (canonical path_value)
unfolding Encoder.starts_marker
decode-encode_example = decode-encode path_value refl

encode-ne-null_example : bytes_eq (Encoder.encode_loop (codes "\\N") 0 []) null_seq ≡ false
encode-ne-null_example = encode-ne-null (codes "\\N")

encode-IsSafe_example : All IsSafe (encode_attr new_value [])
encode-IsSafe_example = encode-IsSafe new_value

encode_loses_byte_example :
    encode_attr (record { bytes = codes "\\Nab"; is_null = false }) []
    ≡ encode_attr (record { bytes = codes "\\Nzb"; is_null = false }) []
encode_loses_byte_example = encode_loses_byte b'a' b'z' (codes "b")

decode-encode_doubles_example :
    decode_attr (encode_attr (record { bytes = 1 ∷ []; is_null = false }) []) []
    ≡ ok (record { bytes = 1 ∷ 1 ∷ []; is_null = false })
decode-encode_doubles_example = decode-encode_doubles 1 refl

decode-join_example :
    decode
      (fixed (none ∷ none ∷ []) 2 [] (blank_pos ∷ blank_pos ∷ []))
      (join (codes "ab") (codes "c" ∷ []))
    ≡ ok (
        fixed
          (none ∷ none ∷ [])
          2
          (join (codes "ab") (codes "c" ∷ []))
          (spans 0 (codes "ab" ∷ codes "c" ∷ [])))
decode-join_example =
    decode-join (none ∷ none ∷ []) 2 [] (blank_pos ∷ blank_pos ∷ []) (codes "ab") (codes "c" ∷ [])
      (ground arith) (ground arith) refl

decode-encode-row_example :
    (done : Row) × (encode (
        fixed
          (none ∷ some new_value ∷ [])
          2
          (join (codes "ab") (codes "c" ∷ []))
          (spans 0 (codes "ab" ∷ codes "c" ∷ [])))
      ≡ ok (join (codes "ab") (codes "x\\ty" ∷ []), done))
    × (decode done (join (codes "ab") (codes "x\\ty" ∷ []))
        ≡ ok (
            fixed done.new_values 2
              (join (codes "ab") (codes "x\\ty" ∷ []))
              (spans 0 (text none (codes "ab") ∷ texts (some new_value ∷ []) (codes "c" ∷ [])))))
unfolding encode_attr Encoder.encode_loop Encoder.skipped Encoder.emitted
decode-encode-row_example =
    decode-encode-row none (some new_value ∷ []) 2 (codes "ab") (codes "c" ∷ []) (ground arith)
      (ground arith) refl

decode-join_overflow_example :
    decode (fixed (none ∷ []) 1 [] (blank_pos ∷ [])) (join (codes "ab") (codes "c" ∷ []))
    ≡ err tuple_size_mismatch
decode-join_overflow_example =
    decode-join_overflow (none ∷ []) 1 [] (blank_pos ∷ []) (codes "ab") (codes "c" ∷ [])
      (ground arith) (ground arith) (omega arith)

get_column_raw-decode_example :
    on_ok
      (decode
        (fixed (none ∷ none ∷ []) 2 [] (blank_pos ∷ blank_pos ∷ []))
        (join (codes "ab") (codes "c" ∷ [])))
      (λ r. get_column_raw r 1)
    ≡ column (codes "ab" ∷ codes "c" ∷ []) 1
get_column_raw-decode_example =
    get_column_raw-decode (none ∷ none ∷ []) 2 [] (blank_pos ∷ blank_pos ∷ []) (codes "ab")
      (codes "c" ∷ []) 1 (ground arith) (ground arith) refl
