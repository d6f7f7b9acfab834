-- ===== src/Subset/Build/Outcome.antt =====
-- NewGraph of subset/graph.go up to the condensed graph collects linked edges, or returns the error of a query.
use greenmask.Common.{
  Bytes, ℕ, suc, ◌+◌, ◌<◌, ◌≡◌, ◌⊎◌, inl, inr, refl, ap, ◌∙◌, some, Option-cases, List, [], ◌∷◌,
  not, Result, Error, ok, err, wrap, length, get_elem?, arith,
}
use greenmask.Subset.Reach.{Elem}
use greenmask.Subset.Types.{Table, Reference, ConfigReference, VirtualReference, Edge}
use greenmask.Subset.Build.{
  make_lists, Links, find_table, new_table_link, add_reference, add_virtual_reference, each_in,
  get_virtual_references, add_table, add_tables, build_links, new_keys_by_column,
  new_keys_by_referenced_column,
}
use greenmask.Subset.Build.Appends.{
  entries, append_at-Appended, length-make_lists, entries-make_lists, index_func-found,
}
use greenmask.Subset.Build.Edges.{IsLinked, grown, IsLinked-grown}

find_table-found :
    (name schema : Bytes) (tables : List Table) (j : ℕ)
    → find_table name schema tables ≡ some j
    → (t : Table) × (get_elem? tables j ≡ some t) × (j < length tables)
unfolding find_table
find_table-found name schema tables j e =
    let (t, at, holds, lt) = index_func-found _ tables j e in (t, at, lt)

-- The call returns edges that are linked.
abbrev pub LinksOk : ℕ → Result Links → Type 0
LinksOk n r = (l : Links) × (r ≡ ok l) × IsLinked n l

module _ (tables : List Table) (idx : ℕ) (table : Table) (idx_lt : idx < length tables) where
  add_reference_ok :
      (ref : Reference) (l : Links)
      → IsLinked (length tables) l
      → LinksOk (length tables) (add_reference tables idx table ref l)
  unfolding add_reference new_table_link
  add_reference_ok ref l linked = elim (Option-cases (find_table ref.name ref.schema tables)) [
    | inl e ↦ (l, rw (add_reference, e) refl, linked)
    | inr (j, e) ↦
        let (target, at, j_lt) = find_table-found ref.name ref.schema tables j e in
        let from = new_table_link idx table (new_keys_by_column ref.referenced_keys) [] in
        let to = new_table_link j target (new_keys_by_column ref.ref_table_keys) [] in
        let edge : Edge = record {
          id = l.edge_id_sequence;
          idx = j;
          is_nullable = ref.is_nullable;
          from = from;
          to = to;
        } in
        let turned : Edge = record {
          id = l.edge_id_sequence;
          idx = idx;
          is_nullable = ref.is_nullable;
          from = to;
          to = from;
        } in
        let (g, run, app) =
          append_at-Appended l.graph idx edge (omega (arith, linked.graph_size)) in
        let (r, run', app') =
          append_at-Appended l.reversed_graph j turned (omega (arith, linked.reversed_size)) in
        let (s, run'', app'') =
          append_at-Appended l.reversed_simple_graph j idx (omega (arith, linked.simple_size)) in
        (
          grown (length tables) idx j l linked edge idx_lt j_lt refl refl refl refl g r s,
          rw (add_reference, e, at, run, run', run'') refl,
          IsLinked-grown (length tables) idx j l linked edge idx_lt j_lt refl refl refl refl g r s
              app app'' (app'.same_length ∙ linked.reversed_size)
              (λ w x h. elim (app'.fresh w x h) [
                | inl m ↦ inl m
                | inr (a, b) ↦ inr (a, ap (λ z. z.idx) b, ap (λ z. z.id) b)
              ]),
        )
  ]

  add_virtual_reference_ok :
      (ref : ConfigReference) (l : Links)
      → IsLinked (length tables) l
      → LinksOk (length tables) (add_virtual_reference tables idx table ref l)
  unfolding add_virtual_reference new_table_link
  add_virtual_reference_ok ref l linked =
      elim (Option-cases (find_table ref.name ref.schema tables)) [
        | inl e ↦ (l, rw (add_virtual_reference, e) refl, linked)
        | inr (j, e) ↦
            let (target, at, j_lt) = find_table-found ref.name ref.schema tables j e in
            let from =
              new_table_link idx table (new_keys_by_referenced_column ref.columns)
                ref.polymorphic_exprs in
            let to = new_table_link j target (new_keys_by_column target.primary_key) [] in
            let edge : Edge = record {
              id = l.edge_id_sequence;
              idx = j;
              is_nullable = not ref.not_null;
              from = from;
              to = to;
            } in
            let (g, run, app) =
              append_at-Appended l.graph idx edge (omega (arith, linked.graph_size)) in
            let (s, run', app') =
              append_at-Appended l.reversed_simple_graph j idx
                (omega (arith, linked.simple_size)) in
            (
              grown (length tables) idx j l linked edge idx_lt j_lt refl refl refl refl g
                  l.reversed_graph s,
              rw (add_virtual_reference, e, at, run, run') refl,
              IsLinked-grown (length tables) idx j l linked edge idx_lt j_lt refl refl refl refl g
                  l.reversed_graph s app app' linked.reversed_size (λ w x h. inl h),
            )
      ]

each_in_ok {ℓ} :
    {A : Type ℓ} (n : ℕ) (body : A → Links → Result Links)
    → ((x : A) (l : Links) → IsLinked n l → LinksOk n (body x l))
    → (xs : List A) (l : Links) → IsLinked n l
    → LinksOk n (each_in body xs l)
unfolding each_in
each_in_ok n body body_ok [] l linked = (l, refl, linked)
each_in_ok n body body_ok (x ∷ xs) l linked =
    let (r, run, linked') = body_ok x l linked in
    let (s, run', linked'') = each_in_ok n body body_ok xs r linked' in (s, rw run run', linked'')

module _ (get_references : ℕ → Result (List Reference)) (vr : List VirtualReference)
    (tables : List Table) where
  -- The query returns rows or an error.
  abbrev pub Answers : Type 0
  Answers =
      (oid : ℕ)
      → ((refs : List Reference) × (get_references oid ≡ ok refs))
        ⊎ ((e : Error) × (get_references oid ≡ err e))

  -- The call returns linked edges, or the error of a query.
  abbrev pub Outcome : Result Links → Type 0
  Outcome r =
      LinksOk (length tables) r
      ⊎ ((oid : ℕ) × (e : Error) × (get_references oid ≡ err e)
          × (r ≡ err (wrap "error getting references" e)))

  module _ (answers : Answers) where
    add_table-Outcome :
        (idx : ℕ) (table : Table) (l : Links)
        → idx < length tables
        → IsLinked (length tables) l
        → Outcome (add_table get_references vr tables idx table l)
    unfolding add_table
    add_table-Outcome idx table l lt linked = elim (answers table.oid) [
      | inl (refs, e) ↦
          let (r, run, linked') =
            each_in_ok (length tables) (add_reference tables idx table)
              (add_reference_ok tables idx table lt) refs l linked in
          let (s, run', linked'') =
            each_in_ok (length tables) (add_virtual_reference tables idx table)
              (add_virtual_reference_ok tables idx table lt) (get_virtual_references vr table) r
              linked' in
          inl (s, rw (add_table, e, run) run', linked'')
      | inr (e, eq) ↦ inr (table.oid, e, eq, rw (add_table, eq) refl)
    ]

    add_tables-Outcome :
        (idx : ℕ) (rest : List Table) (l : Links)
        → idx + length rest ≡ length tables
        → IsLinked (length tables) l
        → Outcome (add_tables get_references vr tables idx rest l)
    unfolding add_tables
    add_tables-Outcome idx [] l size linked = inl (l, refl, linked)
    add_tables-Outcome idx (table ∷ rest) l size linked =
        elim (add_table-Outcome idx table l (omega arith) linked) [
          | inl (r, run, linked') ↦
              elim (add_tables-Outcome (suc idx) rest r (omega arith) linked') [
                | inl (s, run', linked'') ↦ inl (s, rw run run', linked'')
                | inr (oid, e, eq, run') ↦ inr (oid, e, eq, rw run run')
              ]
          | inr (oid, e, eq, run) ↦ inr (oid, e, eq, rw run refl)
        ]

    -- NewGraph has linked edges, unless a query fails.
    pub build_links-Outcome : Outcome (build_links get_references vr tables)
    unfolding build_links
    build_links-Outcome = add_tables-Outcome 0 tables _ (omega arith) (record {
      graph_size = length-make_lists Edge (length tables);
      simple_size = length-make_lists ℕ (length tables);
      reversed_size = length-make_lists Edge (length tables);
      source = λ u e h. absurd (none_in u e h);
      target = λ u e h. absurd (none_in u e h);
      listed = λ u e h. absurd (none_in u e h);
      placed = λ e h. absurd h;
      sourced = λ e h. absurd h;
      back = λ u e h. absurd (none_in u e h);
      forth = λ w u h. absurd (none_in w u h);
      foreign = λ w r h. absurd (none_in w r h);
      below = λ e h. absurd h;
      unique = λ e f h. absurd h;
    })
      where
        nothing : {A : Type 0} (x : A) (xs : List A) → xs ≡ [] → Elem x xs → ⊥
        nothing x [] e h = h
        nothing x (y ∷ ys) e h = cc

        none_in :
            {A : Type 0} (u : ℕ) (x : A)
            → Elem x (entries (make_lists {A = A} (length tables)) u)
            → ⊥
        none_in {A} u x h =
            nothing x (entries (make_lists {A = A} (length tables)) u)
              (entries-make_lists A (length tables) u) h
