-- ===== src/Restore/Tests.antt =====
-- The theorems on the data stage at two tables, the second of which depends on the first, and a sequence.
use greenmask.Common.{
  ℕ, zero, suc, String, ◌≡◌, inl, inr, refl, sym, ap, ◌∙◌, Option, none, some, List, [], ◌∷◌, true,
  false, ok, codes, Bytes, arith,
}
use greenmask.Toc.Types.{Entry}
use greenmask.Restore.{
  Options, Metadata, skip, wait_and_send, action, awaited, is_need_restore, listed, unlisted,
  contains_name, remove_escape_quotes, cut_last_quote, makes_task, dependencies_are_restored,
  contains_oid, Pool, skipped, sent, taken, finished, Run, rest, step,
}
use greenmask.Restore.Safety.{IsHonest, Run-IsHonest}
use greenmask.Restore.Blocked.{IsBlocked, Run-IsBlocked}
use greenmask.Restore.Progress.{Outcome, IsSent, IsReady, Run-Outcome}

abbrev entry : ℕ → String → String → Entry
entry id desc tag = record {
  catalog_id = record { table_oid = 0; oid = 0 };
  dump_id = id;
  section = 3;
  had_dumper = 1;
  tag = some (codes tag);
  namespace = some (codes "public");
  tablespace = none;
  tableam = none;
  owner = none;
  desc = some (codes desc);
  defn = none;
  drop_stmt = none;
  copy_stmt = none;
  dependencies = [];
  n_deps = 0;
  file_name = none;
  relkind = 0;
  data_dumper = 0;
  data_length = 0;
}

abbrev users : Entry
users = entry 1 "TABLE DATA" "users"

abbrev orders : Entry
orders = entry 2 "TABLE DATA" "orders"

abbrev orders_id : Entry
orders_id = entry 3 "SEQUENCE SET" "orders_id"

abbrev options : List Bytes → Options
options table = record {
  exclude_schema = [];
  schema = [];
  table = table;
  restore_in_order = true;
  jobs = 2;
  no_blobs = false;
  no_privileges = false;
  inserts = false;
  on_conflict_do_nothing = false;
}

abbrev graph : ℕ → List ℕ
graph zero = []
graph (suc zero) = []
graph (suc (suc zero)) = 1 ∷ []
graph (suc (suc (suc n))) = []

abbrev oids : ℕ → Option ℕ
oids id = some id

abbrev metadata : Metadata
metadata = record {
  dump_ids_order = 1 ∷ 2 ∷ 9 ∷ [];
  dependencies_graph = graph;
  dump_ids_to_table_oid = oids;
  database_schema = 1 ∷ 2 ∷ 9 ∷ [];
}

users_sent : action (options []) metadata users ≡ ok wait_and_send
unfolding action is_need_restore listed unlisted makes_task
users_sent = refl

orders_sent : action (options []) metadata orders ≡ ok wait_and_send
unfolding action is_need_restore listed unlisted makes_task
orders_sent = refl

nothing_awaited : dependencies_are_restored [] (awaited (options []) metadata users) ≡ true
unfolding dependencies_are_restored awaited
nothing_awaited = refl

users_awaited : dependencies_are_restored (1 ∷ []) (awaited (options []) metadata orders) ≡ true
unfolding dependencies_are_restored awaited contains_oid
users_awaited = refl

abbrev start : Pool
start = record { todo = users ∷ orders ∷ []; tasks = []; running = []; restored = [] }

abbrev end : Pool
end = record { todo = []; tasks = orders ∷ []; running = []; restored = 1 ∷ [] }

run : Run (options []) metadata 4 start end
run = step (sent users_sent nothing_awaited (omega arith)) (
    step (taken (omega arith))
      (step (finished users [] []) (step (sent orders_sent users_awaited (omega arith)) rest)))

start-IsHonest : IsHonest (options []) metadata start
start-IsHonest = record {
  sent_after = λ e h. elim h [ inl a ↦ absurd a | inr b ↦ absurd b ];
  restored_after = λ i h. absurd h;
}

Run-IsHonest_example : IsHonest (options []) metadata end
Run-IsHonest_example = Run-IsHonest (options []) metadata 4 start end run start-IsHonest

start-IsReady : IsReady (options []) metadata start.todo (IsSent start)
unfolding awaited
start-IsReady = (
  wait_and_send,
  users_sent,
  (λ d h. absurd h),
  (wait_and_send, orders_sent, (λ d h. elim h [ inl p ↦ inr p | inr m ↦ absurd m ]), tt),
)

Run-Outcome_example : Outcome (options []) metadata 4 start end
Run-Outcome_example = Run-Outcome (options []) metadata 4 start end (omega arith) start-IsReady run

abbrev only_orders : Options
only_orders = options (codes "orders" ∷ [])

users_skipped : action only_orders metadata users ≡ ok skip
unfolding action is_need_restore listed unlisted makes_task contains_name remove_escape_quotes
    cut_last_quote
users_skipped = refl

orders_still_sent : action only_orders metadata orders ≡ ok wait_and_send
unfolding action is_need_restore listed unlisted makes_task contains_name remove_escape_quotes
    cut_last_quote
orders_still_sent = refl

abbrev blocked : Pool
blocked = record { todo = orders ∷ []; tasks = []; running = []; restored = [] }

start-IsBlocked : IsBlocked only_orders metadata orders 1 start
unfolding awaited
start-IsBlocked = record {
  waits = inl refl;
  goes_on = inr orders_still_sent;
  pending = inr (inl refl);
  never_todo = λ f h p. elim h [
    | inl e ↦ rw e users_skipped
    | inr m ↦ elim m [ inl e ↦ absurd (two_one (sym (id_of f e) ∙ p)) | inr n ↦ absurd n ]
  ];
  never_tasks = λ f h. elim h [ inl a ↦ absurd a | inr b ↦ absurd b ];
  never_restored = λ h. h;
}
  where
    two_one : ◌≡◌ {A = ℕ} 2 1 → ⊥
    two_one e = absurd (omega arith)

    id_of : (f : Entry) → f ≡ orders → f.dump_id ≡ 2
    id_of f e = ap (λ x. x.dump_id) e

Run-IsBlocked_example : IsBlocked only_orders metadata orders 1 blocked
Run-IsBlocked_example =
    Run-IsBlocked only_orders metadata 1 orders 1 start blocked (step (skipped users_skipped) rest)
      start-IsBlocked

abbrev toc_entries : List Entry
toc_entries = orders_id ∷ orders ∷ users ∷ []
