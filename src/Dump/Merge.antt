-- ===== src/Dump/Merge.antt =====
-- Which entries MergeTocEntries of cmd/dump.go keeps.
use greenmask.Common.{
  ℕ, suc, ◌+◌, ◌≡◌, refl, ap, subst, ◌∙◌, Option, none, some, List, [], ◌∷◌, ◌++◌, append_assoc,
  true, false, if◌then◌else◌, ◌==◌, length, length-append, take, drop, drop-append, All, arith,
}
use greenmask.Toc.Types.{Entry}
use greenmask.Toc.Version.{section_pre_data, section_post_data}
use greenmask.Dump.{find_bounds, head_entries, tail_entries, merge_toc_entries}

-- The entry is not of the post-data.
abbrev pub IsEarly : Entry → Type 0
IsEarly e = (e.section == section_post_data) ≡ false

-- The entry is of neither section.
abbrev pub IsBetween : Entry → Type 0
IsBetween e = ((e.section == section_pre_data) ≡ false) × ((e.section == section_post_data) ≡ false)

-- Nothing, or entries that begin with one of the post-data.
abbrev pub IsTail : List Entry → Type 0
IsTail [] = Unit
IsTail (e ∷ es) =
    ((e.section == section_pre_data) ≡ false) × ((e.section == section_post_data) ≡ true)

abbrev start_of : ℕ → List Entry → Option ℕ
start_of idx [] = none
start_of idx (e ∷ es) = some idx

find_bounds-tail :
    (idx : ℕ) (pre : Option ℕ) (tail : List Entry)
    → IsTail tail
    → find_bounds idx pre tail ≡ record { pre_data_end = pre; post_data_start = start_of idx tail }
unfolding find_bounds
find_bounds-tail idx pre [] h = refl
find_bounds-tail idx pre (e ∷ es) (p, q) = rw (p, q) refl

find_bounds-between :
    (idx : ℕ) (pre : Option ℕ) (mid tail : List Entry)
    → All IsBetween mid
    → IsTail tail
    → find_bounds idx pre (mid ++ tail)
      ≡ record { pre_data_end = pre; post_data_start = start_of (idx + length mid) tail }
unfolding find_bounds
find_bounds-between idx pre [] tail h t =
    let q : idx ≡ idx + 0 = omega arith in
    find_bounds-tail idx pre tail t
    ∙ ap (λ k. record { pre_data_end = pre; post_data_start = start_of k tail }) q
find_bounds-between idx pre (e ∷ mid) tail ((p, q), h) t =
    let s : suc idx + length mid ≡ idx + suc (length mid) = omega arith in
    rw (p, q)
      (find_bounds-between (suc idx) pre mid tail h t
        ∙ ap (λ k. record { pre_data_end = pre; post_data_start = start_of k tail }) s)

find_bounds-last :
    (idx : ℕ) (pre : Option ℕ) (early : List Entry) (last : Entry) (mid tail : List Entry)
    → All IsEarly early
    → (last.section == section_pre_data) ≡ true
    → IsEarly last
    → All IsBetween mid
    → IsTail tail
    → find_bounds idx pre (early ++ last ∷ (mid ++ tail)) ≡ record {
      pre_data_end = some (idx + length early);
      post_data_start = start_of (suc (idx + length early) + length mid) tail;
    }
unfolding find_bounds
find_bounds-last idx pre [] last mid tail h p q m t =
    let s : idx ≡ idx + 0 = omega arith in
    rw (p, q)
      (find_bounds-between (suc idx) (some idx) mid tail m t
        ∙ ap
            (λ k. record {
              pre_data_end = some k;
              post_data_start = start_of (suc k + length mid) tail;
            })
            s)
find_bounds-last idx pre (e ∷ early) last mid tail (g, h) p q m t =
    let s : suc idx + length early ≡ idx + suc (length early) = omega arith in
    rw g (
      find_bounds-last (suc idx) (if e.section == section_pre_data then some idx else pre) early
        last mid tail h p q m t
      ∙ ap
          (λ k. record {
            pre_data_end = some k;
            post_data_start = start_of (suc k + length mid) tail;
          })
          s)

take-front :
    (early : List Entry) (last : Entry) (rest : List Entry) (n : ℕ)
    → n ≡ length early
    → take (suc n) (early ++ last ∷ rest) ≡ early ++ last ∷ []
take-front [] last rest n p = rw p refl
take-front (e ∷ early) last rest n p =
    rw p (ap (λ es. e ∷ es) (take-front early last rest (length early) refl))

drop-front : (early tail : List Entry) (n : ℕ) → n ≡ length early → drop n (early ++ tail) ≡ tail
drop-front early tail n p = rw p (drop-append early tail)

tail_entries-start :
    (early tail : List Entry) (n : ℕ)
    → n ≡ length early
    → tail_entries (early ++ tail) (start_of n tail) ≡ tail
unfolding tail_entries
tail_entries-start early [] n p = refl
tail_entries-start early (e ∷ tail) n p = drop-front early (e ∷ tail) n p

-- When there are data entries, and the schema entries are some that are not of the post-data, then
-- a last one of the pre-data, then some of neither section, then none or some that begin with one
-- of the post-data, MergeTocEntries returns those up to the last one of the pre-data, the entries
-- of large objects, the data entries, and those from the post-data on. The entries of neither
-- section between the two are lost.
pub merge_toc_entries-bounds :
    (blobs early : List Entry) (last : Entry) (mid tail : List Entry) (d : Entry)
    (data_entries : List Entry)
    → All IsEarly early
    → (last.section == section_pre_data) ≡ true
    → IsEarly last
    → All IsBetween mid
    → IsTail tail
    → merge_toc_entries blobs (early ++ last ∷ (mid ++ tail)) (d ∷ data_entries)
      ≡ (early ++ last ∷ []) ++ blobs ++ (d ∷ data_entries) ++ tail
unfolding merge_toc_entries head_entries
merge_toc_entries-bounds blobs early last mid tail d data_entries h p q m t =
    let front : take (suc (0 + length early)) (early ++ last ∷ (mid ++ tail)) ≡ early ++ last ∷ [] =
      take-front early last (mid ++ tail) (0 + length early) (omega arith) in
    let whole : (early ++ last ∷ mid) ++ tail ≡ early ++ last ∷ (mid ++ tail) =
      append_assoc early (last ∷ mid) tail in
    let back : tail_entries (early ++ last ∷ (mid ++ tail))
          (start_of (suc (0 + length early) + length mid) tail)
        ≡ tail =
      subst (λ es. tail_entries es (start_of (suc (0 + length early) + length mid) tail) ≡ tail)
        whole
        (tail_entries-start (early ++ last ∷ mid) tail (suc (0 + length early) + length mid)
          (omega (arith, length-append early (last ∷ mid)))) in
    rw (merge_toc_entries, find_bounds-last 0 none early last mid tail h p q m t, front, back) refl
