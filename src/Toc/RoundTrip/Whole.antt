-- ===== src/Toc/RoundTrip/Whole.antt =====
-- What `Write` writes, `Read` reads back.
use greenmask.Common.{
  ℕ, ◌≤◌, ◌<◌, ◌%◌, ◌^◌, ◌≡◌, ap, ◌∙◌, sym, Bytes, some, List, [], ◌++◌, append-nil, map, label,
  modify, ◌>>◌, ok, bind_of_ok, Bool-cases, leb, leb→le, Result, bind_of_err, label_of_err,
  length-append, label_of_ok, Error, err, wrap, ◌⊎◌, inl, inr, ◌-◌, ◌+◌, length, length-map, All,
  arith,
}
use mathlib.Core.Path.{ap₂}
use greenmask.Toc.Types.{Header, Entry, Toc}
use greenmask.Toc.Persisted.{
  persisted_header, persisted_entry, largest_id, IsWritable, IsWritableHeader,
}
use greenmask.Toc.Writer
use greenmask.Toc.Writer.{Writer, new_writer}
use greenmask.Toc.Writer.Emits
use greenmask.Toc.Writer.Header.{write_header}
use greenmask.Toc.Writer.Entries.{write_entries}
use greenmask.Toc.Writer.Write.{write}
use greenmask.Toc.Reader.{Reader, new_reader, prune}
use greenmask.Toc.Reader.Reads.{at, ready}
use greenmask.Toc.Reader.Header.{read_header}
use greenmask.Toc.Reader.Entries.{read_entries}
use greenmask.Toc.Reader.Read.{read}
use greenmask.Toc.RoundTrip.{Link}
use greenmask.Toc.RoundTrip.Header.{blank, Link-header, version-IsWritableHeader}
use greenmask.Toc.RoundTrip.Entries.{Link-entries}

-- The writer behind a whole `Write`.
abbrev pub written : Bytes → ℕ → Writer
written archive room = record (new_writer (room - length archive)) { out = archive }

-- What an archive keeps of a table of contents.
abbrev pub persisted : Header → List Entry → Toc
persisted h entries = record {
  header = some (persisted_header h (length entries) (largest_id 0 entries));
  entries = some (map (persisted_entry h.version) entries);
}

module _ (h : Header) (entries : List Entry)
    (head : Link h.version blank
      (write_header h)
      read_header
      (persisted_header h 0 0)
      (ready h.version 0))
    (body : Link h.version
      (ready h.version 0)
      (write_entries entries)
      read_entries
      (map (persisted_entry h.version) entries)
      (ready h.version (largest_id 0 entries))) where
  -- `read` counts the entries in an int32.
  counted : ℕ → Result (Toc × Reader)
  counted n = ok (
    record {
      header = some (persisted_header h n (largest_id 0 entries));
      entries = some (map (persisted_entry h.version) entries);
    },
    record { input = []; int_size = 0; version = 0; position = 0; max_dump_id = 0 },
  )

  read_back :
      length entries < 2 ^ 31
      → read (new_reader (head.bytes ++ (body.bytes ++ [])))
        ≡ ok (persisted h entries, new_reader [])
  unfolding read new_reader prune counted
  read_back few =
      let count : length (map (persisted_entry h.version) entries) % 2 ^ 32 ≡ length entries =
        omega (arith, length-map (persisted_entry h.version) entries) in
      bind_of_ok (label "error reading header" read_header) _
        {s = at (head.bytes ++ (body.bytes ++ [])) blank 0}
        (label_of_ok "error reading header" read_header (head.reads.run (body.bytes ++ []) 0))
      ∙ bind_of_ok (label "error reading entries" read_entries) _
          {s = at (body.bytes ++ []) (ready h.version 0) (0 + length head.bytes)}
          (label_of_ok "error reading entries" read_entries
            (body.reads.run [] (0 + length head.bytes)))
      ∙ ap counted count

  abbrev archive : Bytes
  archive = head.bytes ++ (body.bytes ++ [])

  abbrev outcome : ℕ → Result (Unit {0} × Writer)
  outcome room = write (record { header = some h; entries = some entries }) (new_writer room)

  length-archive : length archive ≡ length head.bytes + length body.bytes
  length-archive = rw append-nil (length-append head.bytes body.bytes)

  -- `Write` behind its checks, with integers of a size.
  sized : ℕ → ℕ → Result (Unit {0} × Writer)
  sized room int_size =
      (label "error writing header" (write_header h)
          >> (label "error writing entries" (write_entries entries) >> modify Writer.prune))
        (record { out = []; room = room; int_size = int_size; version = h.version; position = 0 })

  outcome-sized : h.int_size ≡ 4 → (room : ℕ) → outcome room ≡ sized room 4
  unfolding write new_writer sized
  outcome-sized four room = ap (sized room) four

  write_fits : (room : ℕ) → length archive ≤ room → sized room 4 ≡ ok (tt, written archive room)
  unfolding sized Writer.prune new_writer
  write_fits room fits =
      let sizes = length-archive in
      let left : room - length head.bytes - length body.bytes ≡ room - length archive =
        omega arith in
      bind_of_ok (label "error writing header" (write_header h)) _
        {s = Emits.at [] room h.version 0}
        (label_of_ok "error writing header" (write_header h)
          (head.emits.run [] room 0 (omega arith)))
      ∙ bind_of_ok (label "error writing entries" (write_entries entries)) _
          {s = Emits.at head.bytes (room - length head.bytes) h.version (0 + length head.bytes)}
          (label_of_ok "error writing entries" (write_entries entries) (
            body.emits.run head.bytes (room - length head.bytes) (0 + length head.bytes)
              (omega arith)))
      ∙ ap₂ (λ b r. ok (tt, record (new_writer r) { out = head.bytes ++ b }))
          (sym (append-nil body.bytes)) left

  write_short : (room : ℕ) → room < length archive → (e : Error) × (sized room 4 ≡ err e)
  unfolding sized
  write_short room lacks = elim (Bool-cases (leb (length head.bytes) room)) [
    | inl e ↦
        let sizes = length-archive in
        let fits = leb→le _ _ e in
        let (error, failed) =
          body.emits.short head.bytes (room - length head.bytes) (0 + length head.bytes)
            (omega arith) in
        (
          wrap "error writing entries" error,
          bind_of_ok (label "error writing header" (write_header h)) _
                {s = Emits.at [] room h.version 0}
                (label_of_ok "error writing header" (write_header h)
                  (head.emits.run [] room 0 fits))
              ∙ bind_of_err (label "error writing entries" (write_entries entries)) _
                  {s = Emits.at head.bytes (room - length head.bytes) h.version
                    (0 + length head.bytes)}
                  (label_of_err "error writing entries" (write_entries entries) failed),
        )
    | inr e ↦
        let (error, failed) = head.emits.short [] room 0 (ground arith) in
        (
          wrap "error writing header" error,
          bind_of_err (label "error writing header" (write_header h)) _
              {s = Emits.at [] room h.version 0}
              (label_of_err "error writing header" (write_header h) failed),
        )
  ]

-- For a header of version 1.1 to 1.16 and fewer than 2^31 entries whose fields are in range, there
-- is one archive that Write produces when the sink has room for it and that Read turns back into
-- what the version keeps of the header and the entries, with no input left; with less room Write
-- reports an error.
pub read-write :
    (h : Header) (entries : List Entry)
    → IsWritableHeader h
    → length entries < 2 ^ 31
    → All (IsWritable h.version) entries
    → (archive : Bytes) × (read (new_reader archive) ≡ ok (persisted h entries, new_reader []))
      × ((room : ℕ)
          → ((length archive ≤ room)
              × (write (record { header = some h; entries = some entries }) (new_writer room)
                  ≡ ok (tt, written archive room)))
            ⊎ ((room < length archive)
                × ((e : Error) × (write
                        (record { header = some h; entries = some entries })
                        (new_writer room)
                      ≡ err e))))
read-write h entries holds few hs =
    let head = Link-header h holds in
    let body = Link-entries h.version (version-IsWritableHeader h holds) 0 entries few hs in
    (
      head.bytes ++ (body.bytes ++ []),
      read_back h entries head body few,
      λ room.
          let same = outcome-sized h entries head body holds.int_size room in
          elim (Bool-cases (leb (length (head.bytes ++ (body.bytes ++ []))) room)) [
            | inl e ↦
                let fits = leb→le _ _ e in
                inl (fits, same ∙ write_fits h entries head body room fits)
            | inr e ↦
                let lacks : room < length (head.bytes ++ (body.bytes ++ [])) = ground arith in
                let (error, failed) = write_short h entries head body room lacks in
                inr (lacks, (error, same ∙ failed))
          ],
    )
