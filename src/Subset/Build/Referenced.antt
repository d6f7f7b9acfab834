-- ===== src/Subset/Build/Referenced.antt =====
-- The edges that NewGraph of subset/graph.go collects are those of the references.
use greenmask.Common.{
  ℕ, suc, ◌+◌, ◌≡◌, ◌⊎◌, inl, inr, refl, sym, ap, subst, ◌∙◌, Option, Option-cases, none, some,
  List, [], ◌∷◌, ◌++◌, not, ◌&&◌, Result, ok, on_ok, Bytes, bytes_eq, length, get_elem?, arith,
}
use greenmask.Subset.Types.{Table, Reference, ConfigReference, VirtualReference, Edge}
use greenmask.Subset.Build.{
  index_func, append_at, make_lists, find_table, Links, new_table_link, new_keys_by_column,
  new_keys_by_referenced_column, add_reference, add_virtual_reference, each_in,
  get_virtual_references, add_table, add_tables, build_links,
}
use greenmask.Subset.Build.Appends.{index_func-found}
use greenmask.Subset.Build.Outcome.{Answers}
use greenmask.Subset.Build.Arrows.{
  key_pair, plain, table_named, reference_arrow, reference_arrows, virtual_arrow, virtual_arrows,
  each_arrows, configured_for, rows_of, table_arrows, all_arrows, IsReferenced,
}
use greenmask.Subset.Build.Added.{
  index_func-first, map-map, same_arrow, Returns, Returns-then, Returns-map, Added, Added-none,
  Added-trans, Added-appends, each_in-Added,
}

module _ (tables : List Table) where
  -- The table that find_table finds is the first of the name and the schema.
  find_table-named :
      (name schema : Bytes)
      → ((find_table name schema tables ≡ none) × (table_named name schema tables ≡ none))
        ⊎ ((j : ℕ) × (t : Table) × (find_table name schema tables ≡ some j)
            × (get_elem? tables j ≡ some t)
            × (table_named name schema tables ≡ some t))
  unfolding find_table
  find_table-named name schema =
      let same = index_func-first (λ t. bytes_eq t.name name && bytes_eq t.schema schema) tables in
      elim (Option-cases (find_table name schema tables)) [
        | inl e ↦ inl (e, sym same ∙ rw e refl)
        | inr (j, e) ↦
            let (t, at, holds, lt) = index_func-found _ tables j e in
            inr (j, t, e, at, sym same ∙ rw (e, at) refl)
      ]

  module _ (idx : ℕ) (table : Table) (at_idx : get_elem? tables idx ≡ some table) where
    add_reference-Added :
        (ref : Reference) (l : Links)
        → Returns
            (Added tables l (reference_arrows tables idx ref))
            (add_reference tables idx table ref l)
    unfolding add_reference new_table_link new_keys_by_column
    add_reference-Added ref l = elim (find_table-named ref.name ref.schema) [
      | inl (e, e') ↦
          subst
            (λ o.
              Returns (Added tables l (reference_arrow idx ref o))
                (add_reference tables idx table ref l))
            (sym e') (rw (add_reference, e) (Added-none tables l))
      | inr (j, t, e, at, e') ↦
          let from = new_table_link idx table (new_keys_by_column ref.referenced_keys) [] in
          let to = new_table_link j t (new_keys_by_column ref.ref_table_keys) [] in
          let edge : Edge = record {
            id = l.edge_id_sequence;
            idx = j;
            is_nullable = ref.is_nullable;
            from = from;
            to = to;
          } in
          let turned : Edge = record {
            id = l.edge_id_sequence;
            idx = idx;
            is_nullable = ref.is_nullable;
            from = to;
            to = from;
          } in
          subst
            (λ o.
              Returns (Added tables l (reference_arrow idx ref o))
                (add_reference tables idx table ref l))
            (sym e')
            (rw (add_reference, e, at)
              (Added-appends tables l edge _ (append_at l.graph idx edge)
                (append_at l.reversed_graph j turned) (append_at l.reversed_simple_graph j idx)
                (same_arrow idx t ref.is_nullable []
                  (map-map key_pair _ plain (λ name. refl) ref.referenced_keys)
                  (map-map key_pair _ plain (λ name. refl) ref.ref_table_keys))
                (at_idx, at)))
    ]

    add_virtual_reference-Added :
        (ref : ConfigReference) (l : Links)
        → Returns
            (Added tables l (virtual_arrows tables idx ref))
            (add_virtual_reference tables idx table ref l)
    unfolding add_virtual_reference new_table_link new_keys_by_column new_keys_by_referenced_column
    add_virtual_reference-Added ref l = elim (find_table-named ref.name ref.schema) [
      | inl (e, e') ↦
          subst
            (λ o.
              Returns (Added tables l (virtual_arrow idx ref o))
                (add_virtual_reference tables idx table ref l))
            (sym e') (rw (add_virtual_reference, e) (Added-none tables l))
      | inr (j, t, e, at, e') ↦
          let from =
            new_table_link idx table (new_keys_by_referenced_column ref.columns)
              ref.polymorphic_exprs in
          let to = new_table_link j t (new_keys_by_column t.primary_key) [] in
          let edge : Edge = record {
            id = l.edge_id_sequence;
            idx = j;
            is_nullable = not ref.not_null;
            from = from;
            to = to;
          } in
          subst
            (λ o.
              Returns (Added tables l (virtual_arrow idx ref o))
                (add_virtual_reference tables idx table ref l))
            (sym e')
            (rw (add_virtual_reference, e, at)
              (Added-appends tables l edge _ (append_at l.graph idx edge) (ok l.reversed_graph)
                (append_at l.reversed_simple_graph j idx)
                (same_arrow idx t (not ref.not_null) ref.polymorphic_exprs
                  (map-map key_pair _ _ (λ col. refl) ref.columns)
                  (map-map key_pair _ plain (λ name. refl) t.primary_key))
                (at_idx, at)))
    ]

    get_virtual_references-configured_for :
        (vr : List VirtualReference) → get_virtual_references vr table ≡ configured_for vr table
    unfolding get_virtual_references
    get_virtual_references-configured_for vr =
        let test =
          λ (r : VirtualReference). bytes_eq r.schema table.schema && bytes_eq r.name table.name in
        both (index_func test vr) (λ i. get_elem? vr i)
        ∙ ap (λ o. elim o as (λ z. List ConfigReference) [ none ↦ [] | some r ↦ r.references ])
            (index_func-first test vr)
      where
        both :
            (o : Option ℕ) (get : ℕ → Option VirtualReference)
            → elim o [ none ↦ [] | some i ↦ elim (get i) [ none ↦ [] | some r ↦ r.references ] ]
              ≡ elim (elim o as (λ z. Option VirtualReference) [ none ↦ none | some i ↦ get i ]) [
                | none ↦ []
                | some r ↦ r.references
              ]
        both none get = refl
        both (some i) get = refl

    module _ (get_references : ℕ → Result (List Reference)) (vr : List VirtualReference)
        (answers : Answers get_references vr tables) where
      add_table-Added :
          (l : Links)
          → Returns
              (Added tables l (table_arrows get_references vr tables idx table))
              (add_table get_references vr tables idx table l)
      unfolding add_table
      add_table-Added l = elim (answers table.oid) [
        | inl (refs, e) ↦
            let rows : rows_of (get_references table.oid) ≡ refs = rw e refl in
            subst
              (λ rs.
                Returns
                  (Added tables l (
                    each_arrows (reference_arrows tables idx) rs
                    ++ each_arrows (virtual_arrows tables idx) (configured_for vr table)))
                  (add_table get_references vr tables idx table l))
              (sym rows) (rw (add_table, e) (loops refs l))
        | inr (x, e) ↦ rw (add_table, e) tt
      ]
        where
          loops :
              (refs : List Reference) (k : Links)
              → Returns
                  (Added tables k (
                    each_arrows (reference_arrows tables idx) refs
                    ++ each_arrows (virtual_arrows tables idx) (configured_for vr table)))
                  (on_ok (each_in (add_reference tables idx table) refs k) λ next.
                    each_in
                      (add_virtual_reference tables idx table)
                      (get_virtual_references vr table)
                      next)
          loops refs k =
              let as_rows = each_arrows (reference_arrows tables idx) refs in
              let as_config = each_arrows (virtual_arrows tables idx) (configured_for vr table) in
              Returns-then (Added tables k as_rows) (Added tables k (as_rows ++ as_config)) _ _
                (each_in-Added tables (add_reference tables idx table) (reference_arrows tables idx)
                  add_reference-Added refs k)
                λ m here.
                  Returns-map (Added tables m as_config) (Added tables k (as_rows ++ as_config)) _
                    (rw (sym (get_virtual_references-configured_for vr)) (
                      each_in-Added tables (add_virtual_reference tables idx table)
                        (virtual_arrows tables idx) add_virtual_reference-Added
                        (get_virtual_references vr table) m))
                    λ n rest. Added-trans tables k m n as_rows as_config here rest

module _ (get_references : ℕ → Result (List Reference)) (vr : List VirtualReference)
    (tables : List Table) (answers : Answers get_references vr tables) where
  add_tables-Added :
      (idx : ℕ) (rest : List Table) (l : Links)
      → ((k : ℕ) (t : Table) → get_elem? rest k ≡ some t → get_elem? tables (idx + k) ≡ some t)
      → Returns
          (Added tables l (all_arrows get_references vr tables idx rest))
          (add_tables get_references vr tables idx rest l)
  unfolding add_tables
  add_tables-Added idx [] l at = Added-none tables l
  add_tables-Added idx (table ∷ rest) l at =
      let here = table_arrows get_references vr tables idx table in
      let behind = all_arrows get_references vr tables (suc idx) rest in
      let same : idx + 0 ≡ idx = omega arith in
      let at_idx : get_elem? tables idx ≡ some table =
        subst (λ i. get_elem? tables i ≡ some table) same (at 0 table refl) in
      Returns-then (Added tables l here) (Added tables l (here ++ behind))
        (add_table get_references vr tables idx table l)
        (add_tables get_references vr tables (suc idx) rest)
        (add_table-Added tables idx table at_idx get_references vr answers l)
        λ m first_arrows.
          Returns-map (Added tables m behind) (Added tables l (here ++ behind))
            (add_tables get_references vr tables (suc idx) rest m)
            (add_tables-Added (suc idx) rest m
              λ k t h. subst (λ i. get_elem? tables i ≡ some t) (next k) (at (suc k) t h))
            λ n rest_arrows. Added-trans tables l m n here behind first_arrows rest_arrows
    where
      next : (k : ℕ) → idx + suc k ≡ suc idx + k
      next k = omega arith

  abbrev no_links : Links
  no_links = record {
    graph = make_lists (length tables);
    reversed_graph = make_lists (length tables);
    reversed_simple_graph = make_lists (length tables);
    edges = [];
    edge_id_sequence = 0;
  }

  build_links-Returns :
      Returns (IsReferenced get_references vr tables) (build_links get_references vr tables)
  unfolding build_links
  build_links-Returns =
      Returns-map (Added tables no_links (all_arrows get_references vr tables 0 tables))
        (IsReferenced get_references vr tables) (build_links get_references vr tables)
        (add_tables-Added 0 tables no_links
          λ k t h. subst (λ i. get_elem? tables i ≡ some t) (start k) h)
        λ l added. (added.0, added.1 tt)
    where
      start : (k : ℕ) → k ≡ 0 + k
      start k = omega arith

  pub build_links-IsReferenced :
      (l : Links)
      → build_links get_references vr tables ≡ ok l
      → IsReferenced get_references vr tables l
  build_links-IsReferenced l run =
      subst (Returns (IsReferenced get_references vr tables)) run build_links-Returns
