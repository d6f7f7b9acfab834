-- ===== src/Lib.antt =====
-- Verification of Greenmask, a tool that dumps a PostgreSQL database with its data obfuscated.
--
-- A dump is a directory that pg_restore reads: a table of contents (toc.dat) and a file of COPY text
-- for each table. Greenmask reads the table of contents that pg_dump wrote, rewrites its data entries
-- and writes it again. It decodes each line of a table into a row, gives some columns new values
-- that transformers take from a generator of bytes, and encodes the row again.
--
-- Common: helpers. A byte slice or a string is the list of its bytes. A machine integer is its bit
--   pattern, and its wrap-around is written out. A call ends as a `Result`: a value, an error, a Go
--   panic, or `stuck`, which is no Go value and marks a loop that ran out of fuel. Stateful code is
--   `Exec S A`, a function of the state. Common/Decimal has what the code uses of strconv.
-- Toc: internal/db/postgres/toc. Version, Types: utils.go, header.go, entry.go, toc.go. Reader:
--   reader.go, the functions for one value; below it Header (readHeader), Entries (readEntries) and
--   Read, Reads for its lemmas, and Termination, HeaderEnds, EntriesEnds and Total for termination.
--   Writer: writer.go, in the same order, with Emits for its lemmas. Persisted: what an archive of a
--   version keeps. RoundTrip: reading what was written.
-- PgCopy: internal/db/postgres/pgcopy. Encoder, Decoder: EncodeAttr and DecodeAttr. Row: row.go.
--   RoundTrip and Row/Rewrite: their properties.
-- Generators: internal/generators, with the generator as a record of its two methods on the state of
--   all generators. Random: random_bytes.go, random_int64.go, hybrid.go. Limits, Integers, Choices,
--   Strings: internal/generators/transformers. Sizes, Limits/Bounds,
--   Picks, StringLengths: their properties.
-- Retention: the deletion of old dumps. Status: internal/utils/dumpstatus/status.go, the status of a
--   dump from its files. Dumps: the lists of dumps by status in cmd/greenmask/cmd/delete. Delete: the
--   functions that delete. Order, Complete, Kept, DryRun: their properties.
-- Subset: internal/db/postgres/subset, the graph of the tables. Reach: paths, and the order in a list.
--   Dfs: the depth-first searches; below it Marks, PostOrder and Flood for what they leave behind. Scc:
--   findScc, with Order, Marking and Correct. Build: the loops of NewGraph over references, with
--   Appends, Edges, Outcome and, for the references behind the edges, Arrows, Added and Referenced.
--   Component: component.go, with Cycles, Assign, Search, Found, Whole and HasCycle.
--   Condense: buildCondensedGraph and NewGraph, with a module for each step, Condensed for the whole
--   and Cycles for hasCycle. Sorted: GetSortedTablesAndDependenciesGraph, with Order, Dependencies,
--   Oids and Correct.
-- Restore: the data stage of internal/db/postgres/cmd/restore.go, with taskPusher and the workers as a
--   step relation. Order: sortTocEntriesInTopoOrder. Safety, Blocked, Progress, Entries, Distinct:
--   their properties.
-- Dump: MergeTocEntries of internal/db/postgres/cmd/dump.go, with Merge for its property.
-- The modules called Tests apply the theorems to concrete inputs.
--
-- Bounds and fuel. The reader and the writer work with four-byte integers, as the code insists. The
-- loop over the dependencies of an entry has the length of the input and one as its fuel, and each
-- round takes at least four bytes off the input. A decimal number has fuel for twenty digits, as many
-- as a uint64 has. The loop over the columns of a line has the length of the line and two as its
-- fuel, and each round moves the start by one at least. A depth-first search has as much fuel as there
-- are vertices, since a call marks one.
--
-- Not modelled. Messages of the log, and the operands in the text of an error. The capacity of a
-- slice beyond its length: a slice expression past the length panics in the model. Buffer pools. The
-- state after an error, which the callers drop. Floating point, the digests, math/rand, the clock and
-- the JSON decoder, which are parameters, and so are the order of a range over a map, the sorts of
-- slices in Subset and the rows of its query, as are the storages' answers. The built-in lists of names.
-- The SQL text of the subset queries. In Restore a failed task, which ends the run, and a cancelled
-- context. buildCyclesGraph in NewComponent. In Retention the clock is read once for one listing of
-- the dumps, and for each dump where retainForDumps reads it. PostgreSQL, its tools and the storages themselves.
pub mod Common
pub mod Toc
pub mod PgCopy
pub mod Generators
pub mod Retention
pub mod Subset
pub mod Restore
pub mod Dump
