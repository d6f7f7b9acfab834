-- ===== src/Subset/Dfs/Marks.antt =====
-- One step of a depth-first search: tests and marks of vertices in range, and how many are left.
use greenmask.Common.{
  ℕ, zero, suc, ◌<◌, ◌≡◌, ◌⊎◌, refl, ap, Option, none, some, List, [], ◌∷◌, Bool, true, false,
  Result, ok, panicked, if◌then◌else◌, lt→ltb, ◌==◌, length, get_elem?, set, arith,
}
use greenmask.Subset.Reach.{targets}
use greenmask.Subset.Dfs.{Search, row, is_visited, mark}

-- A vertex with a mark.
abbrev pub is_seen : List (Option ℕ) → ℕ → Bool
is_seen [] v = false
is_seen (none ∷ marks) zero = false
is_seen (some m ∷ marks) zero = true
is_seen (m ∷ marks) (suc v) = is_seen marks v

-- How many vertices have no mark.
abbrev pub unseen : List (Option ℕ) → ℕ
unseen [] = 0
unseen (none ∷ marks) = suc (unseen marks)
unseen (some m ∷ marks) = unseen marks

pub seen_lt : (marks : List (Option ℕ)) (v : ℕ) → is_seen marks v ≡ true → v < length marks
seen_lt [] v h = cc
seen_lt (none ∷ marks) zero h = cc
seen_lt (some m ∷ marks) zero h = omega arith
seen_lt (none ∷ marks) (suc v) h = omega (arith, seen_lt marks v h)
seen_lt (some m ∷ marks) (suc v) h = omega (arith, seen_lt marks v h)

pub is_visited_ok :
    (v : ℕ) (s : Search) → v < length s.visited → is_visited v s ≡ ok (is_seen s.visited v, s)
unfolding is_visited
is_visited_ok v s lt = go s.visited v lt
  where
    go :
        (marks : List (Option ℕ)) (v : ℕ)
        → v < length marks
        → (elim (get_elem? marks v) as (λ x. Result (Bool × Search)) [
          | none ↦ panicked
          | some m ↦ elim m [ none ↦ ok (false, s) | some c ↦ ok (true, s) ]
        ])
          ≡ ok (is_seen marks v, s)
    go [] v lt = absurd (omega arith)
    go (none ∷ marks) zero lt = refl
    go (some m ∷ marks) zero lt = refl
    go (none ∷ marks) (suc v) lt = go marks v (omega arith)
    go (some m ∷ marks) (suc v) lt = go marks v (omega arith)

pub mark_ok :
    (m v : ℕ) (s : Search)
    → v < length s.visited
    → mark m v s ≡ ok (tt, record s { visited = set s.visited v (some m) })
unfolding mark
mark_ok m v s lt = rw (lt→ltb v (length s.visited) lt) refl

pub row_ok :
    (graph : List (List ℕ)) (v : ℕ) (s : Search)
    → v < length graph
    → row graph v s ≡ ok (targets graph v, s)
unfolding row
row_ok [] v s lt = absurd (omega arith)
row_ok (ws ∷ graph) zero s lt = refl
row_ok (ws ∷ graph) (suc v) s lt = row_ok graph v s (omega arith)

pub seen-set :
    (marks : List (Option ℕ)) (v m u : ℕ)
    → v < length marks
    → is_seen (set marks v (some m)) u ≡ (if v == u then true else is_seen marks u)
seen-set [] v m u lt = absurd (omega arith)
seen-set (none ∷ marks) zero m zero lt = ground arith
seen-set (none ∷ marks) zero m (suc u) lt = ground arith
seen-set (none ∷ marks) (suc v) m zero lt = ground arith
seen-set (none ∷ marks) (suc v) m (suc u) lt = ground (arith, seen-set marks v m u)
seen-set (some c ∷ marks) zero m zero lt = ground arith
seen-set (some c ∷ marks) zero m (suc u) lt = ground arith
seen-set (some c ∷ marks) (suc v) m zero lt = ground arith
seen-set (some c ∷ marks) (suc v) m (suc u) lt = ground (arith, seen-set marks v m u)

-- A mark is one vertex less.
pub unseen-set :
    (marks : List (Option ℕ)) (v m : ℕ)
    → v < length marks
    → is_seen marks v ≡ false
    → suc (unseen (set marks v (some m))) ≡ unseen marks
unseen-set [] v m lt h = absurd (omega arith)
unseen-set (none ∷ marks) zero m lt h = refl
unseen-set (some c ∷ marks) zero m lt h = cc
unseen-set (none ∷ marks) (suc v) m lt h = ap suc (unseen-set marks v m (omega arith) h)
unseen-set (some c ∷ marks) (suc v) m lt h = unseen-set marks v m (omega arith) h

pub seen-set-same :
    (marks : List (Option ℕ)) (v m : ℕ) → v < length marks → is_seen (set marks v (some m)) v ≡ true
seen-set-same marks v m lt = ground (arith, seen-set marks v m v)

-- A mark keeps the marks that there are.
pub seen-set-keeps :
    (marks : List (Option ℕ)) (v m u : ℕ)
    → v < length marks
    → is_seen marks u ≡ true
    → is_seen (set marks v (some m)) u ≡ true
seen-set-keeps marks v m u lt h = ground (arith, seen-set marks v m u)

pub seen-set-inv :
    (marks : List (Option ℕ)) (v m u : ℕ)
    → v < length marks
    → is_seen (set marks v (some m)) u ≡ true
    → (u ≡ v) ⊎ (is_seen marks u ≡ true)
seen-set-inv marks v m u lt h = ground (arith, seen-set marks v m u)

pub get-set-same :
    (marks : List (Option ℕ)) (v m : ℕ)
    → v < length marks
    → get_elem? (set marks v (some m)) v ≡ some (some m)
get-set-same [] v m lt = absurd (omega arith)
get-set-same (c ∷ marks) zero m lt = refl
get-set-same (c ∷ marks) (suc v) m lt = get-set-same marks v m (omega arith)

-- The mark of a vertex that has one, when another gets one.
pub get-set-other :
    (marks : List (Option ℕ)) (v m u : ℕ)
    → is_seen marks u ≡ true
    → is_seen marks v ≡ false
    → get_elem? (set marks v (some m)) u ≡ get_elem? marks u
get-set-other [] v m u h new = refl
get-set-other (none ∷ marks) zero m zero h new = cc
get-set-other (some c ∷ marks) zero m zero h new = cc
get-set-other (c ∷ marks) zero m (suc u) h new = refl
get-set-other (c ∷ marks) (suc v) m zero h new = refl
get-set-other (none ∷ marks) (suc v) m (suc u) h new = get-set-other marks v m u h new
get-set-other (some c ∷ marks) (suc v) m (suc u) h new = get-set-other marks v m u h new

pub seen-found :
    (marks : List (Option ℕ)) (u c : ℕ) → get_elem? marks u ≡ some (some c) → is_seen marks u ≡ true
seen-found [] u c g = cc
seen-found (none ∷ marks) zero c g = cc
seen-found (some m ∷ marks) zero c g = refl
seen-found (none ∷ marks) (suc u) c g = seen-found marks u c g
seen-found (some m ∷ marks) (suc u) c g = seen-found marks u c g
