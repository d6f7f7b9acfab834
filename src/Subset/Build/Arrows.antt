-- ===== src/Subset/Build/Arrows.antt =====
-- What the references say of the edges that NewGraph of subset/graph.go collects.
use greenmask.Common.{
  ℕ, suc, ◌≡◌, Option, none, some, List, [], ◌∷◌, ◌++◌, map, Bool, not, ◌&&◌, Result, ok, Bytes,
  bytes_eq, All, if◌then◌else◌, get_elem?,
}
use greenmask.Subset.Types.{Table, Reference, ConfigReference, VirtualReference, Key, Edge}
use greenmask.Subset.Build.{Links}

-- The first element that passes a test.
abbrev pub first : {A : Type 0} → (A → Bool) → List A → Option A
first p [] = none
first p (x ∷ xs) = if p x then some x else first p xs

-- What a reference says of an edge: the vertex it starts at, the table it leads to, and the keys with
-- their expressions.
pub record Arrow : Type 0 where
  pub source : ℕ
  pub target : Table
  pub is_nullable : Bool
  pub columns : List (Bytes × Bytes)
  pub polymorphic_exprs : List Bytes
  pub target_columns : List (Bytes × Bytes)

abbrev pub arrow :
    ℕ → Table → Bool → List (Bytes × Bytes) → List Bytes → List (Bytes × Bytes) → Arrow
arrow source target is_nullable columns exprs target_columns = record {
  source = source;
  target = target;
  is_nullable = is_nullable;
  columns = columns;
  polymorphic_exprs = exprs;
  target_columns = target_columns;
}

abbrev pub key_pair : Key → Bytes × Bytes
key_pair k = (k.name, k.expression)

abbrev pub plain : Bytes → Bytes × Bytes
plain name = (name, [])

abbrev pub arrow_of : Edge → Arrow
arrow_of e = record {
  source = e.from.idx;
  target = e.to.table;
  is_nullable = e.is_nullable;
  columns = map key_pair e.from.keys;
  polymorphic_exprs = e.from.polymorphic_exprs;
  target_columns = map key_pair e.to.keys;
}

-- The first table of the name and the schema.
abbrev pub table_named : Bytes → Bytes → List Table → Option Table
table_named name schema = first (λ t. bytes_eq t.name name && bytes_eq t.schema schema)

-- A reference to a table that is not dumped has no edge.
abbrev pub reference_arrow : ℕ → Reference → Option Table → List Arrow
reference_arrow idx ref none = []
reference_arrow idx ref (some target) =
    record {
      source = idx;
      target = target;
      is_nullable = ref.is_nullable;
      columns = map plain ref.referenced_keys;
      polymorphic_exprs = [];
      target_columns = map plain ref.ref_table_keys;
    }
    ∷ []

abbrev pub reference_arrows : List Table → ℕ → Reference → List Arrow
reference_arrows tables idx ref = reference_arrow idx ref (table_named ref.name ref.schema tables)

abbrev pub virtual_arrow : ℕ → ConfigReference → Option Table → List Arrow
virtual_arrow idx ref none = []
virtual_arrow idx ref (some target) =
    record {
      source = idx;
      target = target;
      is_nullable = not ref.not_null;
      columns = map (λ col. (col.name, col.expression)) ref.columns;
      polymorphic_exprs = ref.polymorphic_exprs;
      target_columns = map plain target.primary_key;
    }
    ∷ []

abbrev pub virtual_arrows : List Table → ℕ → ConfigReference → List Arrow
virtual_arrows tables idx ref = virtual_arrow idx ref (table_named ref.name ref.schema tables)

abbrev pub each_arrows : {A : Type 0} → (A → List Arrow) → List A → List Arrow
each_arrows f [] = []
each_arrows f (x ∷ xs) = f x ++ each_arrows f xs

-- The references that the configuration has for a table.
abbrev pub configured_for : List VirtualReference → Table → List ConfigReference
configured_for vr t = elim (first (λ r. bytes_eq r.schema t.schema && bytes_eq r.name t.name) vr) [
  | none ↦ []
  | some r ↦ r.references
]

abbrev pub rows_of : Result (List Reference) → List Reference
rows_of (ok refs) = refs
rows_of _ = []

-- The edges of a table: those of the rows of its query, and those of the configuration behind them.
abbrev pub table_arrows :
    (ℕ → Result (List Reference)) → List VirtualReference → List Table → ℕ → Table → List Arrow
table_arrows get_references vr tables idx table =
    each_arrows (reference_arrows tables idx) (rows_of (get_references table.oid))
    ++ each_arrows (virtual_arrows tables idx) (configured_for vr table)

-- The edges of the tables from an index on.
abbrev pub all_arrows :
    (ℕ → Result (List Reference)) → List VirtualReference → List Table → ℕ → List Table → List Arrow
all_arrows get_references vr tables idx [] = []
all_arrows get_references vr tables idx (table ∷ rest) =
    table_arrows get_references vr tables idx table
    ++ all_arrows get_references vr tables (suc idx) rest

-- The tables at the two ends of an edge are those of its vertices.
abbrev pub IsPlaced : List Table → Edge → Type 0
IsPlaced tables e =
    (get_elem? tables e.from.idx ≡ some e.from.table)
    × (get_elem? tables e.to.idx ≡ some e.to.table)

-- The edges are those of the references, in their order, and nothing else.
abbrev pub IsReferenced :
    (ℕ → Result (List Reference)) → List VirtualReference → List Table → Links → Type 0
IsReferenced get_references vr tables l =
    (map arrow_of l.edges ≡ all_arrows get_references vr tables 0 tables)
    × All (IsPlaced tables) l.edges
