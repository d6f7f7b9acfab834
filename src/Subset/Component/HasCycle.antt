-- ===== src/Subset/Component/HasCycle.antt =====
-- hasCycle of subset/component.go on what NewComponent returns.
use greenmask.Common.{
  ℕ, ◌≡◌, ◌↔◌, inl, inr, refl, ap, List, [], ◌∷◌, map, true, false, ltb, length, ok, Bytes, arith,
}
use greenmask.Subset.Reach.{Elem}
use greenmask.Subset.Types.{Table, Edge}
use greenmask.Subset.Component.{Component, group_cycles, new_component, has_cycle}
use greenmask.Subset.Component.Cycles.{IsCycle, IsInner, keys}
use greenmask.Subset.Component.Search.{IsSort}
use greenmask.Subset.Component.Whole.{IsCycles, find_cycles-IsCycles}

pub map-keys : {A : Type 0} (g : List (ℕ × A)) → map (λ entry. entry.0) g ≡ keys g
map-keys [] = refl
map-keys ((v, a) ∷ g) = ap (λ ks. v ∷ ks) (map-keys g)

-- A cycle is recorded exactly when there is one.
pub IsCycles-iff :
    (graph : List (ℕ × List Edge)) (cycles : List (List Edge))
    → IsCycles graph cycles
    → (ltb 0 (length cycles) ≡ true) ↔ ((walk : List Edge) × IsCycle graph walk)
IsCycles-iff graph cycles (sound, clear) = (
  (λ h. one cycles h sound),
  (λ (walk, is_cycle). elim clear [
    | inl (d, m) ↦ some_cycle d cycles m
    | inr free ↦ absurd (free walk is_cycle)
  ]),
)
  where
    one :
        (recorded : List (List Edge))
        → ltb 0 (length recorded) ≡ true
        → ((d : List Edge) → Elem d recorded → IsCycle graph d)
        → (walk : List Edge) × IsCycle graph walk
    one [] h is_sound = cc
    one (d ∷ recorded) h is_sound = (d, is_sound d (inl refl))

    some_cycle :
        (d : List Edge) (recorded : List (List Edge))
        → Elem d recorded
        → ltb 0 (length recorded) ≡ true
    some_cycle d [] m = absurd m
    some_cycle d (x ∷ recorded) m = ground arith

-- For a sort that keeps the edges and a graph whose edges stay within it, NewComponent ends without
-- a panic as far as it finds and groups the cycles, and hasCycle is true of the component exactly
-- when the edges of the graph have a closed walk.
pub has_cycle-new_component :
    (sort_edges : List Edge → List Edge) (sort_strings : List Bytes → List Bytes) (id : ℕ)
    (graph : List (ℕ × List Edge)) (tables : List (ℕ × Table))
    → IsSort sort_edges
    → IsInner graph
    → (comp : Component) × (new_component sort_edges sort_strings id graph tables ≡ ok comp)
      × ((has_cycle comp ≡ true) ↔ ((walk : List Edge) × IsCycle graph walk))
unfolding new_component has_cycle
has_cycle-new_component sort_edges sort_strings id graph tables is_sort inner =
    let (t, run, cycles) =
      find_cycles-IsCycles sort_edges sort_strings graph
        (record { visited = λ v. false; rec_stack = λ v. false; cycles = []; cycles_idents = [] })
        is_sort inner refl refl in
    let comp : Component = record {
      id = id;
      component_graph = graph;
      tables = tables;
      cycles = t.cycles;
      cycles_idents = t.cycles_idents;
      grouped_cycles = group_cycles sort_edges sort_strings 0 t.cycles [];
    } in
    (comp, rw (new_component, map-keys graph, run) refl, IsCycles-iff graph t.cycles cycles)
