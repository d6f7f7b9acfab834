-- ===== src/Toc/Reader/EntriesEnds.antt =====
-- Reading the entries ends on every input.
use greenmask.Common.{
  ℕ, zero, suc, ◌≤◌, ◌<◌, ◌≡◌, refl, Bytes, String, Option, none, some, List, [], ◌∷◌, ◌++◌, not,
  Result, ok, err, panicked, stuck, Exec, label, ◌>>=◌, length, is_neg32, lt_int32, parse_uint32,
  parse_int32, parse_uint32-ends, parse_int32-ends, arith,
}
use greenmask.Common.{nil_pointer, entry_id_out_of_range}
use greenmask.Toc.Types.{Entry}
use greenmask.Toc.Version.{invalid_oid}
use greenmask.Toc.Reader.{Reader, read_str, read_int}
use greenmask.Toc.Reader.Entries.{
  note_id, required, read_oid, guess_section, read_with_oids, next, read_dependencies,
  read_all_dependencies, read_fields, read_entry, read_rounds, read_entries,
}
use greenmask.Toc.Reader.Termination.{
  Ends, Terminates, Terminates-then, Terminates-pure, Terminates-raise, Terminates-panic,
  Terminates-label, Terminates-if, Terminates-since, Terminates-modify, Terminates-lift,
  Terminates-le, read_int_ends, read_str_ends,
}

required_ends : (s : Option Bytes) → Terminates 0 (required s)
unfolding required
required_ends none = Terminates-raise nil_pointer
required_ends (some s) = Terminates-pure s

-- A round of the loop ends when the rounds after it end on any input that is shorter.
round_ends :
    (again : List ℕ → Exec Reader (List ℕ)) (deps : List ℕ) (s : Reader)
    → ((deps : List ℕ) (t : Reader) → length t.input < length s.input → Ends 0 t (again deps t))
    → Ends 0 s ((label "cannot read CatalogId" read_str >>= next again deps) s)
round_ends again deps s rest = go (read_str s) refl (read_str_ends.at s)
  where
    after :
        (t : Reader)
        → length t.input ≤ length s.input
        → (r : Result (List ℕ × Reader)) → Ends 0 t r
        → Ends 0 s r
    after t le (ok (x, u)) g = omega arith
    after t le (err x) g = tt
    after t le panicked g = tt
    after t le stuck g = g

    parsed :
        (text : Bytes) (t : Reader)
        → length t.input < length s.input
        → (r : Result ℕ) → parse_int32 text ≡ r
        → Ends 0 s (next again deps (some text) t)
    parsed text t lt (ok val) e =
        rw e (after t (omega arith) (again (deps ++ val ∷ []) t) (rest (deps ++ val ∷ []) t lt))
    parsed text t lt (err x) e = rw e tt
    parsed text t lt panicked e = rw e tt
    parsed text t lt stuck e = absurd (parse_int32-ends text e)

    go :
        (r : Result (Option Bytes × Reader))
        → read_str s ≡ r
        → Ends 4 s r
        → Ends 0 s ((label "cannot read CatalogId" read_str >>= next again deps) s)
    go (ok (none, t)) e h = rw e (omega arith)
    go (ok (some text, t)) e h = rw e (parsed text t (omega arith) (parse_int32 text) refl)
    go (err x) e h = rw e tt
    go panicked e h = rw e tt
    go stuck e h = absurd h

-- With more fuel than bytes the loop over the dependencies ends.
read_dependencies_ends :
    (fuel : ℕ) (deps : List ℕ) (s : Reader)
    → length s.input < fuel
    → Ends 0 s (read_dependencies fuel deps s)
unfolding read_dependencies
read_dependencies_ends zero deps s lt = absurd (omega arith)
read_dependencies_ends (suc fuel) deps s lt =
    round_ends (read_dependencies fuel) deps s
      (λ deps' t lt'. read_dependencies_ends fuel deps' t (omega arith))

read_all_dependencies_ends : Terminates 0 read_all_dependencies
unfolding read_all_dependencies
read_all_dependencies_ends = record {
  at = λ s. read_dependencies_ends (suc (length s.input)) [] s (omega arith);
}

str_ends : (msg : String) → Terminates 0 (label msg read_str)
str_ends msg = Terminates-label msg (Terminates-le (omega arith) read_str_ends)

int_ends : (msg : String) → Terminates 0 (label msg read_int)
int_ends msg = Terminates-label msg (Terminates-le (omega arith) read_int_ends)

read_oid_ends : Terminates 0 read_oid
unfolding read_oid
read_oid_ends = Terminates-then (str_ends _) (λ tmp.
    Terminates-then (required_ends tmp)
      (λ text. Terminates-label _ (Terminates-lift (parse_uint32 text) (parse_uint32-ends text))))

read_with_oids_ends : Terminates 0 read_with_oids
unfolding read_with_oids
read_with_oids_ends =
    Terminates-then (str_ends _)
      (λ tmp. Terminates-then (required_ends tmp) (λ _. Terminates-pure tt))

guess_section_ends : (desc : Option Bytes) → Terminates 0 (guess_section desc)
unfolding guess_section
guess_section_ends none = Terminates-panic
guess_section_ends (some desc) = Terminates-pure _

read_fields_ends : (dump_id : ℕ) → Terminates 0 (read_fields dump_id)
unfolding read_fields
read_fields_ends dump_id = Terminates-then (int_ends _) λ had_dumper.
    Terminates-then (Terminates-since 8 read_oid_ends (Terminates-pure invalid_oid)) λ table_oid.
      Terminates-then read_oid_ends λ oid. Terminates-then (str_ends _) λ tag.
        Terminates-then (str_ends _) λ desc.
          Terminates-then (Terminates-since 11 (int_ends _) (guess_section_ends desc)) λ section.
            Terminates-then (str_ends _) λ defn. Terminates-then (str_ends _) λ drop_stmt.
              Terminates-then (Terminates-since 3 (str_ends _) (Terminates-pure none)) λ copy_stmt.
                Terminates-then (Terminates-since 6 (str_ends _) (Terminates-pure none))
                  λ namespace.
                    Terminates-then (Terminates-since 10 (str_ends _) (Terminates-pure none))
                      λ tablespace.
                        Terminates-then (Terminates-since 14 (str_ends _) (Terminates-pure none))
                          λ tableam.
                            Terminates-then (Terminates-since 16 (int_ends _) (Terminates-pure 0))
                              λ relkind. Terminates-then (str_ends _) λ owner.
                                Terminates-then
                                  (Terminates-since 9 read_with_oids_ends (Terminates-pure tt))
                                  λ _.
                                    Terminates-then
                                      (Terminates-since 5 read_all_dependencies_ends
                                        (Terminates-pure []))
                                      λ deps.
                                        Terminates-then (str_ends _)
                                          λ file_name. record { at = λ s. omega arith }

read_entry_ends : Terminates 0 read_entry
unfolding read_entry note_id
read_entry_ends = Terminates-then (int_ends _) λ dump_id.
    Terminates-then (Terminates-modify (note_id dump_id) (λ s. refl)) λ _.
      Terminates-if (not (lt_int32 0 dump_id)) (Terminates-raise (entry_id_out_of_range dump_id))
        (read_fields_ends dump_id)

read_rounds_ends : (n : ℕ) (entries : List Entry) → Terminates 0 (read_rounds n entries)
unfolding read_rounds
read_rounds_ends zero entries = Terminates-pure entries
read_rounds_ends (suc n) entries =
    Terminates-then read_entry_ends λ entry. read_rounds_ends n (entries ++ entry ∷ [])

pub read_entries_ends : Terminates 0 read_entries
unfolding read_entries
read_entries_ends =
    Terminates-then (int_ends _) λ toc_count.
      Terminates-if (is_neg32 toc_count) Terminates-panic (read_rounds_ends toc_count [])
