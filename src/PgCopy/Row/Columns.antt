-- ===== src/PgCopy/Row/Columns.antt =====
-- `Decode` finds the columns of a line.
use greenmask.Common.{
  ℕ, zero, suc, ◌+◌, ◌≤◌, ◌<◌, ◌≡◌, ◌≢◌, refl, ap, ◌∙◌, Bytes, [], ◌∷◌, ◌++◌, append_assoc,
  append-nil, List, true, false, leb, le→leb, lt→leb_false, Option, none, some, ok, err,
  tuple_size_mismatch, length, length-append, set, drop-append, All, arith,
}
use greenmask.PgCopy.Value.{RawValue, delimiter}
use greenmask.PgCopy.Row.{
  ColumnPos, Row, index, add_one, end_from, column_end, reserve, place, decode_loop,
}

abbrev pub Lacks : Bytes → Type 0
Lacks = All (λ c. c ≢ delimiter)

-- The columns with a delimiter between them; `join p ps` starts with the column `p`.
abbrev pub join : Bytes → List Bytes → Bytes
join p [] = p
join p (q ∷ ps) = p ++ delimiter ∷ join q ps

-- Where the columns stand in a line, the first one at `start`.
abbrev pub spans : ℕ → List Bytes → List ColumnPos
spans start [] = []
spans start (p ∷ ps) =
    record { start = start; end = start + length p } ∷ spans (start + length p + 1) ps

index_last : (p : Bytes) → Lacks p → index p ≡ none
unfolding index add_one
index_last [] h = refl
index_last (c ∷ p) (hc, h) = ground (arith, index_last p h)

index_first : (p rest : Bytes) → Lacks p → index (p ++ delimiter ∷ rest) ≡ some (length p)
unfolding index add_one
index_first [] rest h = refl
index_first (c ∷ p) rest (hc, h) = ground (arith, index_first p rest h)

column_end_last :
    (pre p : Bytes) → Lacks p → column_end (pre ++ p) (length pre) ≡ length pre + length p
unfolding column_end end_from
column_end_last pre p h = rw (drop-append pre p, index_last p h) (length-append pre p)

column_end_first :
    (pre p rest : Bytes)
    → Lacks p
    → column_end (pre ++ (p ++ delimiter ∷ rest)) (length pre) ≡ length pre + length p
unfolding column_end end_from
column_end_first pre p rest h = rw (drop-append pre (p ++ delimiter ∷ rest), index_first p rest h)

set-append :
    (done todo : List ColumnPos) (old new : ColumnPos)
    → set (done ++ old ∷ todo) (length done) new ≡ (done ++ new ∷ []) ++ todo
set-append [] todo old new = refl
set-append (x ∷ done) todo old new = ap (λ l. x ∷ l) (set-append done todo old new)

-- A row of a fixed size.
module _ (values : List (Option RawValue)) (size : ℕ) where
  abbrev pub fixed : Bytes → List ColumnPos → Row
  fixed raw pos = record {
    raw = raw;
    new_values = values;
    column_pos = pos;
    tuple_size = size;
    is_dynamic = false;
  }

  decode_round :
      (fuel : ℕ) (old : Bytes) (raw : Bytes) (start : ℕ) (done todo : List ColumnPos)
      (was : ColumnPos) (end : ℕ)
      → start ≤ length raw
      → column_end raw start ≡ end
      → decode_loop (suc fuel) raw start (length done) (fixed old (done ++ was ∷ todo))
        ≡ decode_loop fuel raw
            (end + 1)
            (length done + 1)
            (fixed old ((done ++ record { start = start; end = end } ∷ []) ++ todo))
  unfolding decode_loop reserve place
  decode_round fuel old raw start done todo was end inside ends =
      let room : leb (length (done ++ was ∷ todo)) (length done) ≡ false =
        ground (arith, length-append done (was ∷ todo)) in
      rw (le→leb start (length raw) inside, room, ends, set-append done todo was) refl

  decode_end :
      (fuel : ℕ) (old raw : Bytes) (start idx : ℕ) (pos : List ColumnPos)
      → length raw < start
      → decode_loop (suc fuel) raw start idx (fixed old pos) ≡ ok (fixed raw pos)
  unfolding decode_loop
  decode_end fuel old raw start idx pos past = rw (lt→leb_false start (length raw) past)

  decode_too_many :
      (fuel : ℕ) (old raw : Bytes) (start : ℕ) (done : List ColumnPos)
      → start ≤ length raw
      → decode_loop (suc fuel) raw start (length done) (fixed old done) ≡ err tuple_size_mismatch
  unfolding decode_loop reserve
  decode_too_many fuel old raw start done inside =
      let full : leb (length done) (length done) ≡ true = ground arith in
      rw (le→leb start (length raw) inside, full)

  pub decode_columns :
      (p : Bytes) (ps : List Bytes) (fuel : ℕ) (old pre : Bytes) (done todo : List ColumnPos)
      → Lacks p
      → All Lacks ps
      → length todo ≡ suc (length ps)
      → suc (length ps) < fuel
      → decode_loop fuel (pre ++ join p ps) (length pre) (length done) (fixed old (done ++ todo))
        ≡ ok (fixed (pre ++ join p ps) (done ++ spans (length pre) (p ∷ ps)))
  decode_columns p ps zero old pre done todo hp hps count enough = absurd (omega arith)
  decode_columns p ps fuel old pre done [] hp hps count enough = absurd (omega arith)
  decode_columns p [] (suc (suc fuel)) old pre done (was ∷ []) hp hps count enough =
      decode_round (suc fuel) old (pre ++ p) (length pre) done [] was (length pre + length p)
        (omega (arith, length-append pre p)) (column_end_last pre p hp)
      ∙ decode_end fuel old (pre ++ p) (length pre + length p + 1) (length done + 1) _
          (omega (arith, length-append pre p))
      ∙ ap (λ l. ok (fixed (pre ++ p) l)) (append-nil _)
  decode_columns p [] fuel old pre done todo hp hps count enough = absurd (omega arith)
  decode_columns p (q ∷ ps) (suc fuel) old pre done (was ∷ todo) hp (hq, hps) count enough =
      let here : ColumnPos = record { start = length pre; end = length pre + length p } in
      let pre' = pre ++ (p ++ delimiter ∷ []) in
      let line = pre ++ (p ++ delimiter ∷ join q ps) in
      let same : pre' ++ join q ps ≡ line = simp append_assoc in
      let next : length pre' ≡ length pre + length p + 1 =
        omega (arith, length-append pre (p ++ delimiter ∷ []), length-append p (delimiter ∷ [])) in
      let counted : length (done ++ here ∷ []) ≡ length done + 1 =
        omega (arith, length-append done (here ∷ [])) in
      let rest =
        decode_columns q ps fuel old pre' (done ++ here ∷ []) todo hq hps (omega arith)
          (omega arith) in
      decode_round fuel old line (length pre) done todo was (length pre + length p)
        (omega (arith, length-append pre (p ++ delimiter ∷ join q ps)))
        (column_end_first pre p (join q ps) hp)
      ∙ (rw (same, next, counted) at rest)
      ∙ ap (λ l. ok (fixed line l))
          (append_assoc done (here ∷ []) (spans (length pre + length p + 1) (q ∷ ps)))

  -- A line of more columns than the row has slots.
  pub decode_overflow :
      (p : Bytes) (ps : List Bytes) (fuel : ℕ) (old pre : Bytes) (done todo : List ColumnPos)
      → Lacks p
      → All Lacks ps
      → length todo ≤ length ps
      → suc (length ps) < fuel
      → decode_loop fuel (pre ++ join p ps) (length pre) (length done) (fixed old (done ++ todo))
        ≡ err tuple_size_mismatch
  decode_overflow p ps zero old pre done todo hp hps count enough = absurd (omega arith)
  decode_overflow p ps (suc fuel) old pre done [] hp hps count enough = rw append-nil (
      decode_too_many fuel old (pre ++ join p ps) (length pre) done
        (omega (arith, length-append pre (join p ps))))
  decode_overflow p [] (suc fuel) old pre done (was ∷ todo) hp hps count enough =
      absurd (omega arith)
  decode_overflow p (q ∷ ps) (suc fuel) old pre done (was ∷ todo) hp (hq, hps) count enough =
      let here : ColumnPos = record { start = length pre; end = length pre + length p } in
      let pre' = pre ++ (p ++ delimiter ∷ []) in
      let line = pre ++ (p ++ delimiter ∷ join q ps) in
      let same : pre' ++ join q ps ≡ line = simp append_assoc in
      let next : length pre' ≡ length pre + length p + 1 =
        omega (arith, length-append pre (p ++ delimiter ∷ []), length-append p (delimiter ∷ [])) in
      let counted : length (done ++ here ∷ []) ≡ length done + 1 =
        omega (arith, length-append done (here ∷ [])) in
      let rest =
        decode_overflow q ps fuel old pre' (done ++ here ∷ []) todo hq hps (omega arith)
          (omega arith) in
      decode_round fuel old line (length pre) done todo was (length pre + length p)
        (omega (arith, length-append pre (p ++ delimiter ∷ join q ps)))
        (column_end_first pre p (join q ps) hp)
      ∙ (rw (same, next, counted) at rest)
