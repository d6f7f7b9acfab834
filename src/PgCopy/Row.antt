-- ===== src/PgCopy/Row.antt =====
-- pgcopy/row.go: a row of COPY text whose columns are found by position and decoded on demand.
-- The buffer pools are storage that is written before it is read, and have no part in the model.
pub mod Columns
pub mod Rewrite
use greenmask.Common.{
  ℕ, zero, suc, ◌+◌, ◌-◌, Bytes, [], ◌∷◌, ◌++◌, List, Bool, true, false, ◌&&◌, leb, ltb, ◌==◌,
  if◌then◌else◌, Option, none, some, Result, ok, err, panicked, stuck, index_out_of_range, is_neg64,
  tuple_size_mismatch, on_ok, length, get_elem?, set, take, drop,
}
use greenmask.PgCopy.Value.{RawValue, delimiter}
use greenmask.PgCopy.Encoder.{encode_attr}
use greenmask.PgCopy.Decoder.{decode_attr}

pub record ColumnPos : Type 0 where
  pub start : ℕ
  pub end : ℕ

pub record Row : Type 0 where
  pub raw : Bytes
  pub new_values : List (Option RawValue)
  pub column_pos : List ColumnPos
  pub tuple_size : ℕ
  pub is_dynamic : Bool

abbrev zero_pos : ColumnPos
zero_pos = record { start = 0; end = 0 }

unfoldable pub replicate {ℓ} : {A : Type ℓ} → ℕ → A → List A
replicate zero a = []
replicate (suc n) a = a ∷ replicate n a

-- `NewRow`; the argument is `none` for UseDynamicSize, and a size of zero panics.
unfoldable pub new_row : Option ℕ → Result Row
unfolding replicate
new_row none =
    ok (record { raw = []; new_values = []; column_pos = []; tuple_size = 0; is_dynamic = true })
new_row (some zero) = panicked
new_row (some (suc n)) = ok (record {
  raw = [];
  new_values = replicate (suc n) none;
  column_pos = replicate (suc n) zero_pos;
  tuple_size = suc n;
  is_dynamic = false;
})

unfoldable pub add_one : Option ℕ → Option ℕ
add_one none = none
add_one (some n) = some (suc n)

-- slices.Index: where the delimiter stands first.
unfoldable pub index : Bytes → Option ℕ
index [] = none
index (c ∷ s) = if c == delimiter then some 0 else add_one (index s)

-- The end of the column that starts at `start`.
unfoldable pub end_from : ℕ → ℕ → Option ℕ → ℕ
end_from len start none = len
end_from len start (some k) = start + k

unfoldable pub column_end : Bytes → ℕ → ℕ
column_end raw start = end_from (length raw) start (index (drop start raw))

unfoldable pub append_new_empty_buffer : Row → Row
append_new_empty_buffer r = record r {
  column_pos = r.column_pos ++ zero_pos ∷ [];
  new_values = r.new_values ++ none ∷ [];
  tuple_size = suc r.tuple_size;
}

-- Makes room for the column `idx`, if the row may grow.
unfoldable pub reserve : Row → ℕ → Result Row
unfolding append_new_empty_buffer
reserve r idx =
    if r.is_dynamic && leb r.tuple_size idx
    then ok (append_new_empty_buffer r)
    else if leb (length r.column_pos) idx
    then err tuple_size_mismatch
    else ok r

-- `p.start = colStartPos; p.end = colEndPos`
unfoldable pub place : Row → ℕ → ℕ → ℕ → Row
place r idx start end = record r {
  column_pos = set r.column_pos idx (record { start = start; end = end });
}

-- `for colStartPos <= len(raw)` with fuel.
unfoldable pub decode_loop : ℕ → Bytes → ℕ → ℕ → Row → Result Row
decode_loop zero raw start idx r = stuck
decode_loop (suc fuel) raw start idx r =
    let end = column_end raw start in
    let round =
      on_ok (reserve r idx)
        (λ r'. decode_loop fuel raw (end + 1) (idx + 1) (place r' idx start end)) in
    if leb start (length raw) then round else ok (record r { raw = raw })

-- A round moves the start by one byte at least.
unfoldable pub decode : Row → Bytes → Result Row
decode r raw = decode_loop (length raw + 2) raw 0 0 r

-- `r.raw[pos.start:pos.end]`
abbrev pub slice : Bytes → ColumnPos → Bytes
slice raw pos = take (pos.end - pos.start) (drop pos.start raw)

raw_at : Bytes → Option ColumnPos → Result Bytes
raw_at raw none = err index_out_of_range
raw_at raw (some pos) = ok (slice raw pos)

-- The index of a column is an int: its bit pattern here. A negative one passes the comparison with
-- the number of columns, and indexing panics.
unfoldable pub get_column_raw : Row → ℕ → Result Bytes
unfolding raw_at
get_column_raw r idx = if is_neg64 idx then panicked else raw_at r.raw (get_elem? r.column_pos idx)

-- The value of a column: the new one, or else the original one decoded.
value_at : Bytes → Option (Option RawValue) → Option ColumnPos → Result RawValue
value_at raw (some (some v)) pos = ok v
value_at raw (some none) (some pos) = decode_attr (slice raw pos) []
value_at raw (some none) none = panicked
value_at raw none pos = panicked

unfoldable pub get_column : Row → ℕ → Result RawValue
unfolding value_at
get_column r idx =
    if is_neg64 idx
    then panicked
    else if leb (length r.column_pos) idx
    then err index_out_of_range
    else value_at r.raw (get_elem? r.new_values idx) (get_elem? r.column_pos idx)

unfoldable pub set_column : Row → ℕ → RawValue → Result Row
set_column r idx v =
    if is_neg64 idx
    then panicked
    else if leb (length r.column_pos) idx
    then err index_out_of_range
    else ok (record r { new_values = set r.new_values idx (some v) })

-- The text of one column in `Encode`: the new value, or else the original one.
unfoldable pub column_text : Bytes → Option RawValue → ColumnPos → Bytes
column_text raw none pos = slice raw pos
column_text raw (some v) pos = encode_attr v []

-- `for idx, pos := range r.columnPos`; a missing new value is an index out of range.
unfoldable pub encode_loop : Bytes → List (Option RawValue) → List ColumnPos → Result Bytes
encode_loop raw values [] = ok []
encode_loop raw [] (pos ∷ rest) = panicked
encode_loop raw (v ∷ values) (pos ∷ []) = ok (column_text raw v pos)
encode_loop raw (v ∷ values) (pos ∷ next ∷ rest) =
    on_ok (encode_loop raw values (next ∷ rest))
      λ text. ok (column_text raw v pos ++ delimiter ∷ text)

-- Encoding a value clears it.
unfoldable pub cleared : List (Option RawValue) → List ColumnPos → List (Option RawValue)
cleared values [] = values
cleared [] (_ ∷ _) = []
cleared (v ∷ values) (pos ∷ rest) = none ∷ cleared values rest

unfoldable pub encode : Row → Result (Bytes × Row)
encode r =
    if length r.new_values == 0
    then ok (r.raw, r)
    else on_ok (encode_loop r.raw r.new_values r.column_pos)
        λ text. ok (text, record r { new_values = cleared r.new_values r.column_pos })
