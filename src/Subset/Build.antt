-- ===== src/Subset/Build.antt =====
-- NewGraph of subset/graph.go up to the condensed graph, with the keys of subset/table_link.go. The
-- rows of foreignKeyColumnsQuery are a parameter.
pub mod Appends
pub mod Edges
pub mod Outcome
pub mod Arrows
pub mod Added
pub mod Referenced
use greenmask.Common.{
  ℕ, zero, suc, ◌+◌, Option, none, some, List, [], ◌∷◌, ◌++◌, map, Bool, true, false, not, ◌&&◌,
  Result, ok, err, panicked, stuck, wrap, on_ok, Bytes, bytes_eq, if◌then◌else◌, length, get_elem?,
}
use greenmask.Subset.Types.{
  Table, Reference, ReferencedColumn, ConfigReference, VirtualReference, Key, TableLink, Edge,
}

-- `slices.IndexFunc`
unfoldable pub index_func {ℓ} : {A : Type ℓ} → (A → Bool) → List A → Option ℕ
index_func p [] = none
index_func p (x ∷ xs) =
    if p x then some zero else (elim (index_func p xs) [ none ↦ none | some i ↦ some (suc i) ])

-- `xs[i] = append(xs[i], a)`
unfoldable pub append_at {ℓ} : {A : Type ℓ} → List (List A) → ℕ → A → Result (List (List A))
append_at [] i a = panicked
append_at (xs ∷ xss) zero a = ok ((xs ++ a ∷ []) ∷ xss)
append_at (xs ∷ xss) (suc i) a = on_ok (append_at xss i a) λ yss. ok (xs ∷ yss)

-- `make([][]T, n)`
unfoldable pub make_lists {ℓ} : {A : Type ℓ} → ℕ → List (List A)
make_lists zero = []
make_lists (suc n) = [] ∷ make_lists n

unfoldable pub new_keys_by_column : List Bytes → List Key
new_keys_by_column = map (λ col. record { name = col; expression = [] })

unfoldable pub new_keys_by_referenced_column : List ReferencedColumn → List Key
new_keys_by_referenced_column = map (λ col. record { name = col.name; expression = col.expression })

-- The local variables of NewGraph.
pub record Links : Type 0 where
  pub graph : List (List Edge)
  pub reversed_graph : List (List Edge)
  pub reversed_simple_graph : List (List ℕ)
  pub edges : List Edge
  pub edge_id_sequence : ℕ

unfoldable pub new_table_link : ℕ → Table → List Key → List Bytes → TableLink
new_table_link idx table keys exprs = record {
  idx = idx;
  table = table;
  keys = keys;
  polymorphic_exprs = exprs;
}

-- The table of a schema and a name.
unfoldable pub find_table : Bytes → Bytes → List Table → Option ℕ
find_table name schema = index_func (λ t. bytes_eq t.name name && bytes_eq t.schema schema)

-- The body of the loop over the foreign keys of a table. A reference to no table of the dump is left
-- out.
unfoldable pub add_reference : List Table → ℕ → Table → Reference → Links → Result Links
add_reference tables idx table ref links = elim (find_table ref.name ref.schema tables) [
  | none ↦ ok links
  | some j ↦ elim (get_elem? tables j) [
    | none ↦ panicked
    | some target ↦
        let from = new_table_link idx table (new_keys_by_column ref.referenced_keys) [] in
        let to = new_table_link j target (new_keys_by_column ref.ref_table_keys) [] in
        let edge : Edge = record {
          id = links.edge_id_sequence;
          idx = j;
          is_nullable = ref.is_nullable;
          from = from;
          to = to;
        } in
        let reversed_edge : Edge = record {
          id = links.edge_id_sequence;
          idx = idx;
          is_nullable = ref.is_nullable;
          from = to;
          to = from;
        } in
        on_ok (append_at links.graph idx edge) λ graph.
          on_ok (append_at links.reversed_graph j reversed_edge) λ reversed_graph.
            on_ok (append_at links.reversed_simple_graph j idx) λ reversed_simple_graph.
              ok (record {
                graph = graph;
                reversed_graph = reversed_graph;
                reversed_simple_graph = reversed_simple_graph;
                edges = links.edges ++ edge ∷ [];
                edge_id_sequence = suc links.edge_id_sequence;
              })
  ]
]

-- The body of the loop over the virtual references of a table. It adds no edge to `reversedGraph`.
unfoldable pub add_virtual_reference :
    List Table → ℕ → Table → ConfigReference → Links → Result Links
add_virtual_reference tables idx table ref links = elim (find_table ref.name ref.schema tables) [
  | none ↦ ok links
  | some j ↦ elim (get_elem? tables j) [
    | none ↦ panicked
    | some target ↦
        let from =
          new_table_link idx table (new_keys_by_referenced_column ref.columns)
            ref.polymorphic_exprs in
        let to = new_table_link j target (new_keys_by_column target.primary_key) [] in
        let edge : Edge = record {
          id = links.edge_id_sequence;
          idx = j;
          is_nullable = not ref.not_null;
          from = from;
          to = to;
        } in
        on_ok (append_at links.graph idx edge) λ graph.
          on_ok (append_at links.reversed_simple_graph j idx) λ reversed_simple_graph. ok (record {
            graph = graph;
            reversed_graph = links.reversed_graph;
            reversed_simple_graph = reversed_simple_graph;
            edges = links.edges ++ edge ∷ [];
            edge_id_sequence = suc links.edge_id_sequence;
          })
  ]
]

-- A loop whose body may fail.
unfoldable pub each_in {ℓ} :
    {A : Type ℓ} → (A → Links → Result Links) → List A → Links → Result Links
each_in body [] links = ok links
each_in body (x ∷ xs) links = on_ok (body x links) λ next. each_in body xs next

unfoldable pub get_virtual_references : List VirtualReference → Table → List ConfigReference
get_virtual_references vr t =
    elim (index_func (λ r. bytes_eq r.schema t.schema && bytes_eq r.name t.name) vr) [
      | none ↦ []
      | some idx ↦ elim (get_elem? vr idx) [ none ↦ [] | some r ↦ r.references ]
    ]

unfoldable pub add_table :
    (ℕ → Result (List Reference))
    → List VirtualReference
    → List Table
    → ℕ
    → Table
    → Links
    → Result Links
add_table get_references vr tables idx table links = elim (get_references table.oid) [
  | ok refs ↦ on_ok (each_in (add_reference tables idx table) refs links) λ next.
      each_in (add_virtual_reference tables idx table) (get_virtual_references vr table) next
  | err e ↦ err (wrap "error getting references" e)
  | panicked ↦ panicked
  | stuck ↦ stuck
]

-- `for idx, table := range tables`, from the index `idx` on.
unfoldable pub add_tables :
    (ℕ → Result (List Reference))
    → List VirtualReference
    → List Table
    → ℕ
    → List Table
    → Links
    → Result Links
add_tables get_references vr tables idx [] links = ok links
add_tables get_references vr tables idx (table ∷ rest) links =
    on_ok (add_table get_references vr tables idx table links)
      λ next. add_tables get_references vr tables (suc idx) rest next

unfoldable pub build_links :
    (ℕ → Result (List Reference)) → List VirtualReference → List Table → Result Links
build_links get_references vr tables = add_tables get_references vr tables zero tables (record {
  graph = make_lists (length tables);
  reversed_graph = make_lists (length tables);
  reversed_simple_graph = make_lists (length tables);
  edges = [];
  edge_id_sequence = 0;
})
