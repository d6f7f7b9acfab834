-- ===== src/Retention/DryRun.antt =====
-- A dry run of the functions of cmd/delete leaves the storage alone.
use greenmask.Common.{
  ℕ, ◌+◌, ◌≡◌, refl, Bytes, List, [], ◌∷◌, Bool, true, false, Bool-cases, inl, inr, Result, ok,
  Exec, pure, if◌then◌else◌, ltb, length, All, ◌==◌, ==_iff,
}
use greenmask.Retention.Status.{Directory, Metadata}
use greenmask.Retention.Dumps.{Dump, StorageResponse, get_sorted_backup_with_statuses}
use greenmask.Retention.Delete.{
  delete_dump_by_id, delete_expired, delete_where, delete_from, any_dump, is_before, sorted_dumps,
  prune_failed_dumps, delete_before_date, retain_for_dumps, retain_recent_n_dumps, is_expired,
}
use greenmask.Retention.Kept.{IsNamed}

-- A dry run of the loops, over any storage.
module _ {S : Type 0} (delete_all : Bytes → Exec S (Unit {0})) where
  delete_one_dry :
      (d : Dump) (s : S) → IsNamed d → delete_dump_by_id delete_all true d s ≡ ok (tt, s)
  unfolding delete_dump_by_id
  delete_one_dry d s named = elim (Bool-cases (length d.dump_id == 0)) [
    | inl e ↦ absurd (named ((==_iff (length d.dump_id) 0).0 e))
    | inr e ↦ rw e refl
  ]

  delete_where_dry :
      (selected : Dump → Bool) (dumps : List Dump) (s : S)
      → All IsNamed dumps
      → delete_where delete_all true selected dumps s ≡ ok (tt, s)
  unfolding delete_where
  delete_where_dry selected [] s h = refl
  delete_where_dry selected (d ∷ dumps) s (named, h) = elim (Bool-cases (selected d)) [
    | inl e ↦ rw (e, delete_one_dry d s named) (delete_where_dry selected dumps s h)
    | inr e ↦ rw e (delete_where_dry selected dumps s h)
  ]

  delete_from_dry :
      (kept idx : ℕ) (dumps : List Dump) (s : S)
      → All IsNamed dumps
      → delete_from delete_all true kept idx dumps s ≡ ok (tt, s)
  unfolding delete_from
  delete_from_dry kept idx [] s h = refl
  delete_from_dry kept idx (d ∷ dumps) s (named, h) = elim (Bool-cases (ltb idx kept)) [
    | inl e ↦ rw e (delete_from_dry kept (idx + 1) dumps s h)
    | inr e ↦ rw (e, delete_one_dry d s named) (delete_from_dry kept (idx + 1) dumps s h)
  ]

  delete_expired_dry :
      (clock : ℕ → ℕ) (dur idx : ℕ) (dumps : List Dump) (s : S)
      → All IsNamed dumps
      → delete_expired delete_all true clock dur idx dumps s ≡ ok (tt, s)
  unfolding delete_expired
  delete_expired_dry clock dur idx [] s h = refl
  delete_expired_dry clock dur idx (d ∷ dumps) s (named, h) =
      elim (Bool-cases (is_expired (clock idx) dur d)) [
        | inl e ↦
            rw (e, delete_one_dry d s named) (delete_expired_dry clock dur (idx + 1) dumps s h)
        | inr e ↦ rw e (delete_expired_dry clock dur (idx + 1) dumps s h)
      ]

-- A dry run of each way to delete by status or date succeeds and leaves the storage as it is,
-- whatever DeleteAll does, when every id has a character.
pub dry_run-keeps :
    (S : Type 0) (delete_all : Bytes → Exec S (Unit {0})) (list_dir : S → Result (List Directory))
    (decode_json : Bytes → Result Metadata) (now : ℕ) (s : S) (sr : StorageResponse)
    (prune_unsafe : Bool) (clock : ℕ → ℕ) (kept dur dt : ℕ)
    → get_sorted_backup_with_statuses decode_json now (list_dir s) ≡ ok sr
    → All IsNamed sr.valid
    → All IsNamed sr.failed_dumps
    → All IsNamed sr.unknown
    → (prune_failed_dumps delete_all list_dir decode_json now true prune_unsafe s ≡ ok (tt, s))
      × (delete_before_date delete_all list_dir decode_json now true (ok dt) s ≡ ok (tt, s))
      × (retain_for_dumps delete_all list_dir decode_json now true clock dur s ≡ ok (tt, s))
      × (retain_recent_n_dumps delete_all list_dir decode_json now true kept s ≡ ok (tt, s))
unfolding prune_failed_dumps delete_before_date retain_for_dumps retain_recent_n_dumps sorted_dumps
dry_run-keeps S delete_all list_dir decode_json now s sr prune_unsafe clock kept dur dt found v f
      u =
    (
      rw (found, delete_where_dry delete_all any_dump sr.failed_dumps s f) (pruned prune_unsafe),
      rw found (delete_where_dry delete_all (is_before dt) sr.valid s v),
      rw found (delete_expired_dry delete_all clock dur 0 sr.valid s v),
      rw found (delete_from_dry delete_all kept 0 sr.valid s v),
    )
  where
    pruned :
        (unsafe : Bool)
        → (if unsafe then delete_where delete_all true any_dump sr.unknown else pure tt) s
          ≡ ok (tt, s)
    pruned true = delete_where_dry delete_all any_dump sr.unknown s u
    pruned false = refl
