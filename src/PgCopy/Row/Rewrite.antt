-- ===== src/PgCopy/Row/Rewrite.antt =====
-- Reading the columns of a decoded line, and encoding it with some columns replaced.
use greenmask.Common.{
  ℕ, zero, suc, ◌+◌, ◌-◌, ◌≤◌, ◌≡◌, refl, sym, ap, ◌∙◌, Bytes, [], ◌∷◌, ◌++◌, append_assoc,
  append-nil, List, false, ◌==◌, Option, none, some, Result, ok, err, index_out_of_range,
  tuple_size_mismatch, panicked, leb, ◌^◌, if◌then◌else◌, on_ok, length, length-append, get_elem?,
  take, take-append, drop-append, All, All-map, arith,
}
use greenmask.PgCopy.Value.{RawValue, delimiter}
use greenmask.PgCopy.Encoder.{encode_attr}
use greenmask.PgCopy.RoundTrip.{encode-IsSafe}
use greenmask.PgCopy.Row.{
  ColumnPos, Row, decode, slice, raw_at, column_text, cleared, get_column_raw, replicate,
  encode_loop, encode,
}
use greenmask.PgCopy.Row.Columns.{Lacks, join, spans, fixed, decode_columns, decode_overflow}

length-join : (p : Bytes) (ps : List Bytes) → length ps ≤ length (join p ps)
length-join p [] = omega arith
length-join p (q ∷ ps) = omega (arith, length-append p (delimiter ∷ join q ps), length-join q ps)

-- A line of as many columns as the row has slots is decoded into exactly those columns, whatever
-- the row held before.
pub decode-join :
    (values : List (Option RawValue)) (size : ℕ) (old : Bytes) (pos : List ColumnPos) (p : Bytes)
    (ps : List Bytes)
    → Lacks p
    → All Lacks ps
    → length pos ≡ suc (length ps)
    → decode (fixed values size old pos) (join p ps)
      ≡ ok (fixed values size (join p ps) (spans 0 (p ∷ ps)))
unfolding decode
decode-join values size old pos p ps hp hps count =
    decode_columns values size p ps (length (join p ps) + 2) old [] [] pos hp hps count
      (omega (arith, length-join p ps))

take-join : (p : Bytes) (ps : List Bytes) → take (length p) (join p ps) ≡ p
take-join p [] = rw append-nil at (take-append p [])
take-join p (q ∷ ps) = take-append p (delimiter ∷ join q ps)

slice_first :
    (pre p : Bytes) (ps : List Bytes)
    → slice (pre ++ join p ps) (record { start = length pre; end = length pre + length p }) ≡ p
slice_first pre p ps =
    let size : length pre + length p - length pre ≡ length p = omega arith in
    rw (size, drop-append pre (join p ps)) (take-join p ps)

-- The same columns behind one more of them.
later :
    (pre p q : Bytes) (ps : List Bytes)
    → ((pre ++ (p ++ delimiter ∷ [])) ++ join q ps ≡ pre ++ join p (q ∷ ps))
      × (length (pre ++ (p ++ delimiter ∷ [])) ≡ length pre + length p + 1)
later pre p q ps = (
  simp append_assoc,
  omega (arith, length-append pre (p ++ delimiter ∷ []), length-append p (delimiter ∷ [])),
)

-- The text of each column in an encoded row.
abbrev pub text : Option RawValue → Bytes → Bytes
text none p = p
text (some v) p = encode_attr v []

abbrev pub texts : List (Option RawValue) → List Bytes → List Bytes
texts values [] = []
texts [] (p ∷ ps) = []
texts (v ∷ values) (p ∷ ps) = text v p ∷ texts values ps

column_text_first :
    (v : Option RawValue) (pre p : Bytes) (ps : List Bytes)
    → column_text (pre ++ join p ps) v (record { start = length pre; end = length pre + length p })
      ≡ text v p
unfolding column_text
column_text_first none pre p ps = slice_first pre p ps
column_text_first (some v) pre p ps = refl

encode_last :
    (raw : Bytes) (v : Option RawValue) (values : List (Option RawValue)) (pos : ColumnPos)
    → encode_loop raw (v ∷ values) (pos ∷ []) ≡ ok (column_text raw v pos)
unfolding encode_loop
encode_last raw v values pos = refl

encode_step :
    (raw : Bytes) (v : Option RawValue) (values : List (Option RawValue)) (pos next : ColumnPos)
    (rest : List ColumnPos)
    → encode_loop raw (v ∷ values) (pos ∷ next ∷ rest)
      ≡ on_ok
          (encode_loop raw values (next ∷ rest))
          (λ line. ok (column_text raw v pos ++ delimiter ∷ line))
unfolding encode_loop
encode_step raw v values pos next rest = refl

encode_columns :
    (v : Option RawValue) (values : List (Option RawValue)) (pre p : Bytes) (ps : List Bytes)
    → length values ≡ length ps
    → encode_loop (pre ++ join p ps) (v ∷ values) (spans (length pre) (p ∷ ps))
      ≡ ok (join (text v p) (texts values ps))
encode_columns v values pre p [] count =
    encode_last _ v values _ ∙ ap ok (column_text_first v pre p [])
encode_columns v [] pre p (q ∷ ps) count = absurd (omega arith)
encode_columns v (w ∷ values) pre p (q ∷ ps) count =
    let (same, next) = later pre p q ps in
    let rest =
      rw (same, next) at
        (encode_columns w values (pre ++ (p ++ delimiter ∷ [])) q ps (omega arith)) in
    encode_step _ v (w ∷ values) _ _ _ ∙ rw (rest, column_text_first v pre p (q ∷ ps))

text-Lacks : (v : Option RawValue) (p : Bytes) → Lacks p → Lacks (text v p)
text-Lacks none p h = h
text-Lacks (some v) p h = All-map _ _ (λ c safe. safe.0) (encode_attr v []) (encode-IsSafe v)

texts-Lacks :
    (values : List (Option RawValue)) (ps : List Bytes) → All Lacks ps → All Lacks (texts values ps)
texts-Lacks values [] h = tt
texts-Lacks [] (p ∷ ps) h = tt
texts-Lacks (v ∷ values) (p ∷ ps) (hp, h) = (text-Lacks v p hp, texts-Lacks values ps h)

length-texts :
    (values : List (Option RawValue)) (ps : List Bytes)
    → length values ≡ length ps
    → length (texts values ps) ≡ length ps
length-texts values [] h = refl
length-texts [] (p ∷ ps) h = absurd (omega arith)
length-texts (v ∷ values) (p ∷ ps) h = ap suc (length-texts values ps (omega arith))

length-spans : (start : ℕ) (ps : List Bytes) → length (spans start ps) ≡ length ps
length-spans start [] = refl
length-spans start (p ∷ ps) = ap suc (length-spans (start + length p + 1) ps)

-- Encoding a decoded line of which some columns have new values returns exactly the line whose
-- columns are the encoded new values and, elsewhere, the original texts, and decoding that line
-- into the row again finds these columns, when the columns have no delimiter and there is a slot
-- for each.
pub decode-encode-row :
    (v : Option RawValue) (values : List (Option RawValue)) (size : ℕ) (p : Bytes) (ps : List Bytes)
    → Lacks p
    → All Lacks ps
    → length values ≡ length ps
    → (done : Row) × (encode (fixed (v ∷ values) size (join p ps) (spans 0 (p ∷ ps)))
        ≡ ok (join (text v p) (texts values ps), done))
      × (decode done (join (text v p) (texts values ps))
          ≡ ok (
              fixed done.new_values size
                (join (text v p) (texts values ps))
                (spans 0 (text v p ∷ texts values ps))))
unfolding encode
decode-encode-row v values size p ps hp hps count =
    let sent = encode_columns v values [] p ps count in
    let filled : length (v ∷ values) == 0 ≡ false = ground arith in
    (
      fixed (cleared (v ∷ values) (spans 0 (p ∷ ps))) size (join p ps) (spans 0 (p ∷ ps)),
      rw (filled, sent),
      decode-join _ size _ _ (text v p) (texts values ps) (text-Lacks v p hp)
          (texts-Lacks values ps hps)
          (omega (arith, length-spans (0 + length p + 1) ps, length-texts values ps count)),
    )

-- With no new value the line comes back unchanged.
texts-none : (n : ℕ) (ps : List Bytes) → length ps ≤ n → texts (replicate n none) ps ≡ ps
unfolding replicate
texts-none n [] h = refl
texts-none zero (p ∷ ps) h = absurd (omega arith)
texts-none (suc n) (p ∷ ps) h = ap (λ l. p ∷ l) (texts-none n ps (omega arith))

-- A line of more columns than a row of fixed size has slots is refused with an error.
pub decode-join_overflow :
    (values : List (Option RawValue)) (size : ℕ) (old : Bytes) (pos : List ColumnPos) (p : Bytes)
    (ps : List Bytes)
    → Lacks p
    → All Lacks ps
    → length pos ≤ length ps
    → decode (fixed values size old pos) (join p ps) ≡ err tuple_size_mismatch
unfolding decode
decode-join_overflow values size old pos p ps hp hps count =
    decode_overflow values size p ps (length (join p ps) + 2) old [] [] pos hp hps count
      (omega (arith, length-join p ps))

-- The column at an int, given by its bit pattern.
abbrev pub column : List Bytes → ℕ → Result Bytes
column ps idx =
    if leb (2 ^ 63) idx
    then panicked
    else elim (get_elem? ps idx) [ none ↦ err index_out_of_range | some p ↦ ok p ]

column_nat : List Bytes → ℕ → Result Bytes
column_nat ps idx = elim (get_elem? ps idx) [ none ↦ err index_out_of_range | some p ↦ ok p ]

raw_at-some : (raw : Bytes) (pos : ColumnPos) → raw_at raw (some pos) ≡ ok (slice raw pos)
unfolding raw_at
raw_at-some raw pos = refl

raw_at-spans :
    (pre p : Bytes) (ps : List Bytes) (idx : ℕ)
    → raw_at (pre ++ join p ps) (get_elem? (spans (length pre) (p ∷ ps)) idx)
      ≡ column_nat (p ∷ ps) idx
unfolding column_nat
raw_at-spans pre p ps zero = raw_at-some _ _ ∙ ap ok (slice_first pre p ps)
raw_at-spans pre p [] (suc idx) = unfold raw_at in refl
raw_at-spans pre p (q ∷ ps) (suc idx) =
    let (same, next) = later pre p q ps in
    ap (λ l. raw_at l (get_elem? (spans (length pre + length p + 1) (q ∷ ps)) idx)) (sym same)
    ∙ ap
        (λ n.
          raw_at ((pre ++ (p ++ delimiter ∷ [])) ++ join q ps) (get_elem? (spans n (q ∷ ps)) idx))
        (sym next)
    ∙ raw_at-spans (pre ++ (p ++ delimiter ∷ [])) q ps idx

-- After a line of as many columns as the row has slots is decoded, GetColumnRaw returns the column
-- of the line at every index that there is, reports an index out of range at any greater one, and
-- panics at a negative one.
pub get_column_raw-decode :
    (values : List (Option RawValue)) (size : ℕ) (old : Bytes) (pos : List ColumnPos) (p : Bytes)
    (ps : List Bytes) (idx : ℕ)
    → Lacks p
    → All Lacks ps
    → length pos ≡ suc (length ps)
    → on_ok (decode (fixed values size old pos) (join p ps)) (λ r. get_column_raw r idx)
      ≡ column (p ∷ ps) idx
unfolding get_column_raw column_nat
get_column_raw-decode values size old pos p ps idx hp hps count =
    ap (λ m. on_ok m (λ r. get_column_raw r idx))
      (decode-join values size old pos p ps hp hps count)
    ∙ ap (λ m. if leb (2 ^ 63) idx then panicked else m) (raw_at-spans [] p ps idx)
