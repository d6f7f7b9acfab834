-- ===== src/Retention/Order.antt =====
-- The lists of dumps: each holds dumps of its status, the greatest id first.
use greenmask.Common.{
  ℕ, zero, suc, ◌<◌, ◌⊎◌, ltb, ltb→lt, take, drop, ◌≡◌, refl, Bytes, Option, none, some, List, [],
  ◌∷◌, true, false, Bool-cases, inl, inr, Result, ok, err, panicked, stuck, on_ok, All, All-append,
  arith,
}
use greenmask.Retention.Status.{
  Directory, DumpStatus, Metadata, done, failed, unknown_or_failed, in_progress,
  get_dump_status_and_metadata,
}
use greenmask.Retention.Dumps.{
  Dump, StorageResponse, bytes_ltb, insert, sort, classify, add_backup, collect, sorted, no_dumps,
  get_sorted_backup_with_statuses,
}

-- No dump stands before one of a greater id.
abbrev pub IsDescending : List Dump → Type 0
IsDescending [] = Unit
IsDescending (d ∷ []) = Unit
IsDescending (d ∷ e ∷ dumps) = (bytes_ltb d.dump_id e.dump_id ≡ false) × IsDescending (e ∷ dumps)

bytes_ltb-asym : (a b : Bytes) → bytes_ltb a b ≡ true → bytes_ltb b a ≡ false
unfolding bytes_ltb
bytes_ltb-asym a [] h = ground arith
bytes_ltb-asym [] (y ∷ b) h = refl
bytes_ltb-asym (x ∷ a) (y ∷ b) h = ground (arith, bytes_ltb-asym a b)

insert-All :
    (P : Dump → Type 0) (d : Dump) (dumps : List Dump) → P d → All P dumps → All P (insert d dumps)
unfolding insert
insert-All P d [] p h = (p, tt)
insert-All P d (e ∷ dumps) p (q, h) = elim (Bool-cases (bytes_ltb d.dump_id e.dump_id)) [
  | inl t ↦ rw t (q, insert-All P d dumps p h)
  | inr t ↦ rw t (p, (q, h))
]

sort-All : (P : Dump → Type 0) (dumps : List Dump) → All P dumps → All P (sort dumps)
unfolding sort
sort-All P [] h = tt
sort-All P (d ∷ dumps) (p, h) = insert-All P d (sort dumps) p (sort-All P dumps h)

-- Only the first element of what is inserted into matters.
insert-IsDescending :
    (d : Dump) (dumps : List Dump) → IsDescending dumps → IsDescending (insert d dumps)
unfolding insert
insert-IsDescending d [] h = tt
insert-IsDescending d (e ∷ []) h = elim (Bool-cases (bytes_ltb d.dump_id e.dump_id)) [
  | inl t ↦ rw t (bytes_ltb-asym d.dump_id e.dump_id t, tt)
  | inr t ↦ rw t (t, tt)
]
insert-IsDescending d (e ∷ f ∷ dumps) (le, h) = elim (Bool-cases (bytes_ltb d.dump_id e.dump_id)) [
  | inl t ↦ rw t (elim (Bool-cases (bytes_ltb d.dump_id f.dump_id)) [
    | inl u ↦ rw u (le, rw u at (insert-IsDescending d (f ∷ dumps) h))
    | inr u ↦ rw u (bytes_ltb-asym d.dump_id e.dump_id t, (u, h))
  ])
  | inr t ↦ rw t (t, (le, h))
]

sort-IsDescending : (dumps : List Dump) → IsDescending (sort dumps)
unfolding sort
sort-IsDescending [] = tt
sort-IsDescending (d ∷ dumps) = insert-IsDescending d (sort dumps) (sort-IsDescending dumps)

-- At most, on strings: compared byte by byte.
abbrev pub IsAtMost : Bytes → Bytes → Type 0
IsAtMost [] b = Unit
IsAtMost (x ∷ a) [] = ⊥
IsAtMost (x ∷ a) (y ∷ b) = (x < y) ⊎ ((x ≡ y) × IsAtMost a b)

bytes_ltb-IsAtMost : (a b : Bytes) → bytes_ltb a b ≡ false → IsAtMost b a
unfolding bytes_ltb
bytes_ltb-IsAtMost a [] h = tt
bytes_ltb-IsAtMost [] (y ∷ b) h = absurd (ground arith)
bytes_ltb-IsAtMost (x ∷ a) (y ∷ b) h = elim (Bool-cases (ltb x y)) [
  | inl t ↦ absurd (ground arith)
  | inr t ↦ elim (Bool-cases (ltb y x)) [
    | inl u ↦ inl (ltb→lt y x u)
    | inr u ↦ inr (ground arith, bytes_ltb-IsAtMost a b (rw (t, u) at h))
  ]
]

IsAtMost-trans : (a b c : Bytes) → IsAtMost a b → IsAtMost b c → IsAtMost a c
IsAtMost-trans [] b c h k = tt
IsAtMost-trans (x ∷ a) [] c h k = absurd h
IsAtMost-trans (x ∷ a) (y ∷ b) [] h k = absurd k
IsAtMost-trans (x ∷ a) (y ∷ b) (z ∷ c) (inl h) (inl k) = inl (omega (arith, h, k))
IsAtMost-trans (x ∷ a) (y ∷ b) (z ∷ c) (inl h) (inr k) = inl (omega (arith, h, k.0))
IsAtMost-trans (x ∷ a) (y ∷ b) (z ∷ c) (inr h) (inl k) = inl (omega (arith, h.0, k))
IsAtMost-trans (x ∷ a) (y ∷ b) (z ∷ c) (inr h) (inr k) =
    inr (omega (arith, h.0, k.0), IsAtMost-trans a b c h.1 k.1)

-- The dumps whose id is at most an id.
abbrev AllAtMost : Bytes → List Dump → Type 0
AllAtMost id dumps = All (λ d. IsAtMost d.dump_id id) dumps

tail-IsDescending : (d : Dump) (dumps : List Dump) → IsDescending (d ∷ dumps) → IsDescending dumps
tail-IsDescending d [] h = tt
tail-IsDescending d (e ∷ dumps) h = h.1

tail-AllAtMost :
    (id : Bytes) (d : Dump) (dumps : List Dump)
    → IsDescending (d ∷ dumps)
    → IsAtMost d.dump_id id
    → AllAtMost id dumps
tail-AllAtMost id d [] h le = tt
tail-AllAtMost id d (e ∷ dumps) (first, h) le =
    let below : IsAtMost e.dump_id id =
      IsAtMost-trans e.dump_id d.dump_id id (bytes_ltb-IsAtMost d.dump_id e.dump_id first) le in
    (below, tail-AllAtMost id e dumps h below)

IsAtMost-refl : (a : Bytes) → IsAtMost a a
IsAtMost-refl [] = tt
IsAtMost-refl (x ∷ a) = inr (refl, IsAtMost-refl a)

All-drop : (P : Dump → Type 0) (n : ℕ) (dumps : List Dump) → All P dumps → All P (drop n dumps)
All-drop P zero dumps h = h
All-drop P (suc n) [] h = tt
All-drop P (suc n) (d ∷ dumps) h = All-drop P n dumps h.1

-- The ids of the dropped dumps are at most those of the taken ones.
abbrev pub IsSplit : ℕ → List Dump → Type 0
IsSplit n dumps =
    All (λ kept. All (λ gone. IsAtMost gone.dump_id kept.dump_id) (drop n dumps)) (take n dumps)

pub IsDescending-IsSplit : (n : ℕ) (dumps : List Dump) → IsDescending dumps → IsSplit n dumps
IsDescending-IsSplit zero dumps h = tt
IsDescending-IsSplit (suc n) [] h = tt
IsDescending-IsSplit (suc n) (d ∷ dumps) h = (
  All-drop _ n dumps (tail-AllAtMost d.dump_id d dumps h (IsAtMost-refl d.dump_id)),
  IsDescending-IsSplit n dumps (tail-IsDescending d dumps h),
)

-- Each dump stands in the list of its status.
abbrev pub IsClassified : StorageResponse → Type 0
IsClassified sr =
    All (λ d. d.status ≡ done) sr.valid
    × All (λ d. d.status ≡ failed) sr.failed_dumps
    × All (λ d. d.status ≡ unknown_or_failed) sr.unknown

-- The call returns no response that `P` does not hold of.
abbrev pub Returns : (StorageResponse → Type 0) → Result StorageResponse → Type 0
Returns P (ok sr) = P sr
Returns P (err e) = Unit
Returns P panicked = Unit
Returns P stuck = Unit

classify-IsClassified :
    (id : Bytes) (sr : StorageResponse) (answer : DumpStatus × Option Metadata)
    → IsClassified sr
    → Returns IsClassified (classify id sr answer)
unfolding classify
classify-IsClassified id sr (done, some md) (v, f, u) = (All-append _ sr.valid _ v (refl, tt), f, u)
classify-IsClassified id sr (done, none) h = tt
classify-IsClassified id sr (failed, md) (v, f, u) =
    (v, All-append _ sr.failed_dumps _ f (refl, tt), u)
classify-IsClassified id sr (unknown_or_failed, md) (v, f, u) =
    (v, f, All-append _ sr.unknown _ u (refl, tt))
classify-IsClassified id sr (in_progress, md) h = h

add_backup-IsClassified :
    (id : Bytes) (sr : StorageResponse) (answer : Result (DumpStatus × Option Metadata))
    → IsClassified sr
    → Returns IsClassified (add_backup id sr answer)
unfolding add_backup
add_backup-IsClassified id sr (ok answer) h = classify-IsClassified id sr answer h
add_backup-IsClassified id sr (err e) h = h
add_backup-IsClassified id sr panicked h = tt
add_backup-IsClassified id sr stuck h = tt

Returns-on_ok :
    (P Q : StorageResponse → Type 0) (r : Result StorageResponse)
    (f : StorageResponse → Result StorageResponse)
    → Returns P r
    → ((sr : StorageResponse) → P sr → Returns Q (f sr))
    → Returns Q (on_ok r f)
Returns-on_ok P Q (ok sr) f h rest = rest sr h
Returns-on_ok P Q (err e) f h rest = tt
Returns-on_ok P Q panicked f h rest = tt
Returns-on_ok P Q stuck f h rest = tt

module _ (decode_json : Bytes → Result Metadata) (now : ℕ) where
  collect-IsClassified :
      (backups : List Directory) (sr : StorageResponse)
      → IsClassified sr
      → Returns IsClassified (collect decode_json now backups sr)
  unfolding collect
  collect-IsClassified [] sr h = h
  collect-IsClassified (st ∷ backups) sr h =
      Returns-on_ok IsClassified IsClassified
        (add_backup st.dirname sr (get_dump_status_and_metadata decode_json now st))
        (collect decode_json now backups)
        (add_backup-IsClassified st.dirname sr (get_dump_status_and_metadata decode_json now st) h)
        (collect-IsClassified backups)

  -- The dumps are found by their status, and each list has the greatest id first.
  abbrev pub IsOrdered : StorageResponse → Type 0
  IsOrdered sr =
      IsClassified sr
      × (IsDescending sr.valid × IsDescending sr.failed_dumps × IsDescending sr.unknown)

  sorted-IsOrdered : (sr : StorageResponse) → IsClassified sr → IsOrdered (sorted decode_json sr)
  sorted-IsOrdered sr (v, f, u) = (
    (sort-All _ sr.valid v, sort-All _ sr.failed_dumps f, sort-All _ sr.unknown u),
    (sort-IsDescending sr.valid, sort-IsDescending sr.failed_dumps, sort-IsDescending sr.unknown),
  )

  listed-IsOrdered :
      (listed : Result (List Directory))
      → Returns IsOrdered (get_sorted_backup_with_statuses decode_json now listed)
  unfolding get_sorted_backup_with_statuses
  listed-IsOrdered (ok backups) =
      Returns-on_ok IsClassified IsOrdered (collect decode_json now backups no_dumps)
        (λ sr. ok (sorted decode_json sr)) (collect-IsClassified backups no_dumps (tt, tt, tt))
        sorted-IsOrdered
  listed-IsOrdered (err e) = tt
  listed-IsOrdered panicked = tt
  listed-IsOrdered stuck = tt

  -- The lists that getSortedBackupWithStatuses returns, when it returns lists, hold finished dumps,
  -- failed dumps and dumps of unknown status in turn, and each has the greatest id first.
  pub get_sorted_backup_with_statuses-IsOrdered :
      (listed : Result (List Directory)) (sr : StorageResponse)
      → get_sorted_backup_with_statuses decode_json now listed ≡ ok sr
      → IsOrdered sr
  get_sorted_backup_with_statuses-IsOrdered listed sr e = rw e at (listed-IsOrdered listed)
