-- ===== src/Toc/Reader/Total.antt =====
-- Reading a whole archive ends on every input.
use greenmask.Common.{◌≢◌, Bytes, Result, ok, err, panicked, stuck, arith}
use greenmask.Toc.Types.{Toc}
use greenmask.Toc.Reader.{Reader, new_reader, prune}
use greenmask.Toc.Reader.Read.{read}
use greenmask.Toc.Reader.HeaderEnds.{read_header_ends}
use greenmask.Toc.Reader.EntriesEnds.{read_entries_ends}
use greenmask.Toc.Reader.Termination.{Ends, Terminates, Terminates-then, Terminates-label}

-- Read ends on every input: the loop over the dependencies never runs out of its fuel.
pub read-ends : (input : Bytes) → read (new_reader input) ≢ stuck
unfolding read prune
read-ends input = ends (read (new_reader input)) (read_ends.at (new_reader input))
  where
    read_ends : Terminates 0 read
    read_ends = Terminates-then (Terminates-label _ read_header_ends) λ header.
        Terminates-then (Terminates-label _ read_entries_ends)
          λ entries. record { at = λ s. omega arith }

    ends : (r : Result (Toc × Reader)) → Ends 0 (new_reader input) r → r ≢ stuck
    ends (ok x) h e = grind arith
    ends (err x) h e = grind arith
    ends panicked h e = grind arith
    ends stuck h e = h
