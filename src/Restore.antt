-- ===== src/Restore.antt =====
-- The data stage of internal/db/postgres/cmd/restore.go: which entries become tasks, their order, and
-- the pusher and the workers as steps on a channel.
pub mod Safety
pub mod Blocked
pub mod Progress
pub mod Order
pub mod Entries
pub mod Distinct
mod Tests
use greenmask.Common.{
  ℕ, zero, suc, ◌+◌, ◌-◌, ◌<◌, ◌≡◌, Option, none, some, List, [], ◌∷◌, ◌++◌, map, Bool, true, false,
  not, ◌&&◌, ◌||◌, Result, ok, err, panicked, stuck, on_ok, Error, file_not_found, Bytes, bytes_eq,
  codes, if◌then◌else◌, ltb, ◌==◌, length, get_elem?, drop, take,
}
use greenmask.Toc.Types.{Entry}
use greenmask.Toc.Version.{section_data}

-- The options that the data stage reads.
pub record Options : Type 0 where
  pub exclude_schema : List Bytes
  pub schema : List Bytes
  pub table : List Bytes
  pub restore_in_order : Bool
  pub jobs : ℕ
  pub no_blobs : Bool
  pub no_privileges : Bool
  pub inserts : Bool
  pub on_conflict_do_nothing : Bool

-- The fields of the metadata that the data stage reads; the tables of `database_schema` are given by
-- their identifiers.
pub record Metadata : Type 0 where
  pub dump_ids_order : List ℕ
  pub dependencies_graph : ℕ → List ℕ
  pub dump_ids_to_table_oid : ℕ → Option ℕ
  pub database_schema : List ℕ

abbrev quote : ℕ
quote = 34

-- A quote at the end is cut off; `v[len(v)-1]` panics on an empty string.
unfoldable pub cut_last_quote : Bytes → Result Bytes
cut_last_quote [] = panicked
cut_last_quote (c ∷ []) = if c == quote then ok [] else ok (c ∷ [])
cut_last_quote (c ∷ d ∷ cs) = on_ok (cut_last_quote (d ∷ cs)) λ rest. ok (c ∷ rest)

unfoldable pub remove_escape_quotes : Bytes → Result Bytes
remove_escape_quotes [] = panicked
remove_escape_quotes (c ∷ cs) = if c == quote then cut_last_quote cs else cut_last_quote (c ∷ cs)

-- `slices.Contains`
unfoldable pub contains_name : List Bytes → Bytes → Bool
contains_name [] x = false
contains_name (y ∷ ys) x = if bytes_eq y x then true else contains_name ys x

-- `len(names) > 0 && slices.Contains(names, removeEscapeQuotes(*name))`, and a nil name panics.
unfoldable pub listed : List Bytes → Option Bytes → Result Bool
listed [] name = ok false
listed (x ∷ xs) none = panicked
listed (x ∷ xs) (some name) = on_ok (remove_escape_quotes name) λ v. ok (contains_name (x ∷ xs) v)

-- `len(names) > 0 && !slices.Contains(names, removeEscapeQuotes(*name))`
unfoldable pub unlisted : List Bytes → Option Bytes → Result Bool
unlisted [] name = ok false
unlisted (x ∷ xs) none = panicked
unlisted (x ∷ xs) (some name) =
    on_ok (remove_escape_quotes name) λ v. ok (not (contains_name (x ∷ xs) v))

abbrev table_data : Bytes
table_data = codes "TABLE DATA"

abbrev sequence_set : Bytes
sequence_set = codes "SEQUENCE SET"

-- `*e.Desc` panics when there is no description.
unfoldable pub is_need_restore : Options → Entry → Result Bool
is_need_restore opts e = elim e.desc [
  | none ↦ panicked
  | some desc ↦
      if bytes_eq desc table_data || bytes_eq desc sequence_set
      then (on_ok (listed opts.exclude_schema e.namespace) λ excluded.
          if excluded
          then ok false
          else (on_ok (unlisted opts.schema e.namespace) λ other_schema.
              if other_schema
              then ok false
              else (on_ok (unlisted opts.table e.tag) λ other_table. ok (not other_table))))
      else ok true
]

-- A table of the schema with the identifier.
unfoldable pub contains_oid : List ℕ → ℕ → Bool
contains_oid [] x = false
contains_oid (y ∷ ys) x = if y == x then true else contains_oid ys x

-- getTableDefinitionFromMeta: the error stands for ErrTableDefinitionIsEmpty.
unfoldable pub get_table_definition_from_meta : Metadata → ℕ → Result ℕ
get_table_definition_from_meta meta dump_id = elim (meta.dump_ids_to_table_oid dump_id) [
  | none ↦ err file_not_found
  | some oid ↦ if contains_oid meta.database_schema oid then ok oid else panicked
]

-- Whether the switch of taskPusher makes a task for the description.
unfoldable pub makes_task : Options → Metadata → Entry → Bytes → Result Bool
makes_task opts meta e desc =
    if bytes_eq desc table_data
    then (if opts.inserts || opts.on_conflict_do_nothing
        then (on_ok (get_table_definition_from_meta meta e.dump_id) λ t. ok true)
        else ok true)
    else if bytes_eq desc sequence_set
    then ok true
    else if bytes_eq desc (codes "BLOBS")
    then ok (not opts.no_blobs)
    else if bytes_eq desc (codes "ACL")
    then ok (not opts.no_privileges)
    else ok false

-- What taskPusher does with an entry: it skips it, or waits for its dependencies and then goes on
-- without a task or with one.
pub data Action : Type 0 where
  skip wait_only wait_and_send : Action

unfoldable pub action : Options → Metadata → Entry → Result Action
action opts meta e = on_ok (is_need_restore opts e) λ need.
    if need
    then (elim e.desc [
      | none ↦ ok wait_only
      | some desc ↦
          on_ok (makes_task opts meta e desc) λ made. ok (if made then wait_and_send else wait_only)
    ])
    else ok skip

-- The dependencies that taskPusher waits for: none unless it restores in order with several workers.
unfoldable pub awaited : Options → Metadata → Entry → List ℕ
awaited opts meta e =
    if opts.restore_in_order && ltb 1 opts.jobs then meta.dependencies_graph e.dump_id else []

unfoldable pub get_data_section_toc_entries : List Entry → List Entry
get_data_section_toc_entries [] = []
get_data_section_toc_entries (e ∷ entries) =
    let rest = get_data_section_toc_entries entries in
    if e.section == section_data then e ∷ rest else rest

-- `r.restoredDumpIds[id]` for each id
unfoldable pub dependencies_are_restored : List ℕ → List ℕ → Bool
dependencies_are_restored restored [] = true
dependencies_are_restored restored (d ∷ deps) =
    let rest = dependencies_are_restored restored deps in
    if contains_oid restored d then rest else false

-- The entries that taskPusher has before it, the channel, the tasks that workers execute, and the
-- identifiers in `restoredDumpIds`, the latest last.
pub record Pool : Type 0 where
  pub todo : List Entry
  pub tasks : List Entry
  pub running : List Entry
  pub restored : List ℕ

-- One step of taskPusher or of a worker, when no task fails. The channel has room for as many tasks
-- as there are jobs, and so has the pool of workers.
pub data Step (opts : Options) (meta : Metadata) : Pool → Pool → Type 0 where
  skipped :
      {e : Entry} {todo tasks running : List Entry} {restored : List ℕ}
      → action opts meta e ≡ ok skip
      → Step opts meta
          (record { todo = e ∷ todo; tasks = tasks; running = running; restored = restored })
          (record { todo = todo; tasks = tasks; running = running; restored = restored })
  waited :
      {e : Entry} {todo tasks running : List Entry} {restored : List ℕ}
      → action opts meta e ≡ ok wait_only
      → dependencies_are_restored restored (awaited opts meta e) ≡ true
      → Step opts meta
          (record { todo = e ∷ todo; tasks = tasks; running = running; restored = restored })
          (record { todo = todo; tasks = tasks; running = running; restored = restored })
  sent :
      {e : Entry} {todo tasks running : List Entry} {restored : List ℕ}
      → action opts meta e ≡ ok wait_and_send
      → dependencies_are_restored restored (awaited opts meta e) ≡ true
      → length tasks < opts.jobs
      → Step opts meta
          (record { todo = e ∷ todo; tasks = tasks; running = running; restored = restored })
          (record { todo = todo; tasks = tasks ++ e ∷ []; running = running; restored = restored })
  taken :
      {e : Entry} {todo tasks running : List Entry} {restored : List ℕ}
      → length running < opts.jobs
      → Step opts meta
          (record { todo = todo; tasks = e ∷ tasks; running = running; restored = restored })
          (record { todo = todo; tasks = tasks; running = e ∷ running; restored = restored })
  finished :
      {todo tasks : List Entry} {restored : List ℕ} (e : Entry) (before after : List Entry)
      → Step opts meta
          (record {
            todo = todo;
            tasks = tasks;
            running = before ++ e ∷ after;
            restored = restored;
          })
          (record {
            todo = todo;
            tasks = tasks;
            running = before ++ after;
            restored = restored ++ e.dump_id ∷ [];
          })

-- A run of a number of steps.
pub data Run (opts : Options) (meta : Metadata) : ℕ → Pool → Pool → Type 0 where
  rest : {s : Pool} → Run opts meta zero s s
  step :
      {n : ℕ} {s t u : Pool} → Step opts meta s t → Run opts meta n t u → Run opts meta (suc n) s u
