-- ===== src/Generators/Limits/Bounds.antt =====
-- The limiter of random_int64.go keeps its bounds.
use greenmask.Common.{
  ℕ, ◌+◌, ◌-◌, ◌%◌, ◌^◌, ◌≤◌, ◌<◌, ◌≡◌, ◌⊎◌, inl, inr, refl, Bool, true, false, Bool-cases, Result,
  ok, if◌then◌else◌, ◌==◌, IsWord64, is_neg64, biased64, lt_int64, rem_int64, arith,
}
use native.Mathlib.Nat.{mod-lt, mod-eq_of_lt, mod_self}
use greenmask.Common.{le→leb, lt→leb_false, ==_iff, ap, sym, ◌∙◌, ◌≢◌, ltb→lt, leb→le}
use greenmask.Generators.Limits.{
  Int64Limiter, distance_of, new_int64_limiter, rem_or_panic, fold_back, limit, Within,
}

rem_small : (x y : ℕ) → 2 ^ 63 ≤ y → y < x → x < 2 ^ 64 → rem_int64 x y ≡ x
rem_small x y neg less bound =
    let ex : (2 ^ 64 - x) % 2 ^ 64 ≡ 2 ^ 64 - x = omega arith in
    let ey : (2 ^ 64 - y) % 2 ^ 64 ≡ 2 ^ 64 - y = omega arith in
    rw
      (
        le→leb (2 ^ 63) x (omega arith),
        le→leb (2 ^ 63) y neg,
        ex,
        ey,
        mod-eq_of_lt {n = 2 ^ 64 - x} {m = 2 ^ 64 - y} (omega arith),
      )
      (omega arith)

rem_self : (x : ℕ) → 2 ^ 63 ≤ x → rem_int64 x x ≡ 0
rem_self x neg = rw (le→leb (2 ^ 63) x neg, mod_self ((2 ^ 64 - x) % 2 ^ 64)) refl

rem_pos : (x y : ℕ) → x < y → y < 2 ^ 63 → rem_int64 x y ≡ x
rem_pos x y less pos =
    rw (lt→leb_false (2 ^ 63) x (omega arith), lt→leb_false (2 ^ 63) y pos)
      (mod-eq_of_lt {n = x} {m = y} less)

rem_or_panic_ok : (x y : ℕ) → y ≢ 0 → rem_or_panic x y ≡ ok (rem_int64 x y)
rem_or_panic_ok x y ne = elim (Bool-cases (y == 0)) [
  | inl e ↦ absurd (ne ((==_iff y 0).0 e))
  | inr e ↦ rw e refl
]

-- What the last remainder leaves of a number in range.
Folded : ℕ → ℕ → ℕ → ℕ → Type 0
Folded low high res r =
    ((¬ ((res ≡ low) × (2 ^ 63 ≤ low))) × (r ≡ res) × Within low high r)
    ⊎ ((res ≡ low) × (r ≡ 0) × (2 ^ 63 ≤ low))

fold_neg :
    (low high res : ℕ)
    → IsWord64 low
    → IsWord64 res
    → Within low high res
    → 2 ^ 63 ≤ res
    → (r : ℕ) × (rem_or_panic res low ≡ ok r) × Folded low high res r
unfolding Folded
fold_neg low high res wl wr within neg =
    let neg_low : 2 ^ 63 ≤ low = omega (arith, within.0) in
    elim (lt-or-eq low res (omega (arith, within.0))) [
      | inl less ↦ (
        res,
        rem_or_panic_ok res low (omega arith) ∙ ap ok (rem_small res low neg_low less wr),
        inl ((λ same. omega (arith, less, same.0)), refl, within),
      )
      | inr same ↦ (
        0,
        rem_or_panic_ok res low (omega arith) ∙ ap ok (rw (sym same) (rem_self low neg_low)),
        inr (sym same, refl, neg_low),
      )
    ]
  where
    lt-or-eq : (m n : ℕ) → m ≤ n → (m < n) ⊎ (m ≡ n)
    lt-or-eq m n le = ground arith

fold_pos :
    (low high res : ℕ)
    → IsWord64 high
    → Within low high res
    → res < 2 ^ 63
    → (r : ℕ) × (rem_or_panic res high ≡ ok r) × Folded low high res r
unfolding Folded
fold_pos low high res wh within pos =
    let less : (res < high) × (high < 2 ^ 63) =
      (omega (arith, within.1), omega (arith, within.1)) in
    (
      res,
      rem_or_panic_ok res high (omega (arith, less.0)) ∙ ap ok (rem_pos res high less.0 less.1),
      inl ((λ same. omega (arith, pos, same.0, same.1)), refl, within),
    )

sum-Within :
    (low high d : ℕ)
    → IsWord64 low
    → IsWord64 high
    → d < distance_of low high
    → lt_int64 low high ≡ true
    → Within low high ((low + d) % 2 ^ 64)
sum-Within low high d wl wh less ordered =
    let order = ltb→lt (biased64 low) (biased64 high) ordered in (omega arith, omega arith)

distance-pos :
    (low high : ℕ)
    → IsWord64 low
    → IsWord64 high
    → lt_int64 low high ≡ true
    → 0 < distance_of low high
distance-pos low high wl wh ordered =
    let order = ltb→lt (biased64 low) (biased64 high) ordered in omega arith

if-true : {A : Type 0} (x y : A) (b : Bool) → b ≡ true → (if b then x else y) ≡ x
if-true x y b e = rw e refl

if-false : {A : Type 0} (x y : A) (b : Bool) → b ≡ false → (if b then x else y) ≡ y
if-false x y b e = rw e refl

fold_back-Folded :
    (low high res : ℕ)
    → IsWord64 low
    → IsWord64 high
    → IsWord64 res
    → Within low high res
    → (r : ℕ) × (fold_back low high res ≡ ok r) × Folded low high res r
fold_back-Folded low high res wl wh wr within = elim (Bool-cases (is_neg64 res)) [
  | inl e ↦
      with_test (if-true _ _ (is_neg64 res) e)
        (fold_neg low high res wl wr within (leb→le (2 ^ 63) res e))
  | inr e ↦
      with_test (if-false _ _ (is_neg64 res) e) (fold_pos low high res wh within (ground arith))
]
  where
    with_test :
        {x y : Result ℕ}
        → x ≡ y
        → (r : ℕ) × (y ≡ ok r) × Folded low high res r
        → (r : ℕ) × (x ≡ ok r) × Folded low high res r
    with_test same (r, e, f) = (r, same ∙ e, f)

-- The two cases of Limit exclude each other: the remainder by the distance is zero and the least
-- value negative, or not.
abbrev pub Limited : ℕ → ℕ → ℕ → ℕ → Type 0
Limited low high d r =
    ((d ≡ 0) × (2 ^ 63 ≤ low) × (r ≡ 0))
    ⊎ ((¬ ((d ≡ 0) × (2 ^ 63 ≤ low))) × (r ≡ (low + d) % 2 ^ 64) × Within low high r)

-- For every pair of bounds that NewInt64Limiter accepts and every number, Limit returns: where the
-- remainder of the number by the distance is zero and the least value is negative, the result is
-- zero; otherwise it is the least value and that remainder, and is at least the least value and
-- less than the greatest.
pub limit-Within :
    (low high v : ℕ)
    → IsWord64 low
    → IsWord64 high
    → lt_int64 low high ≡ true
    → (l : Int64Limiter) × (r : ℕ) × (new_int64_limiter low high ≡ ok l)
      × (limit l v ≡ ok r)
      × Limited low high (v % distance_of low high) r
unfolding new_int64_limiter limit Folded
limit-Within low high v wl wh ordered =
    go
      (fold_back-Folded low high res wl wh (omega arith) (sum-Within low high d wl wh less ordered))
  where
    d : ℕ
    d = v % distance_of low high

    res : ℕ
    res = (low + d) % 2 ^ 64

    pos : 0 < distance_of low high
    pos = distance-pos low high wl wh ordered

    less : d < distance_of low high
    less = mod-lt v pos

    limited :
        (r : ℕ)
        → fold_back low high res ≡ ok r
        → limit (record { min_value = low; max_value = high; distance = distance_of low high }) v
          ≡ ok r
    limited r f = elim (Bool-cases (distance_of low high == 0)) [
      | inl e ↦ absurd (omega (arith, pos, (==_iff (distance_of low high) 0).0 e))
      | inr e ↦ rw e f
    ]

    unfold_case : (r : ℕ) → Folded low high res r → Limited low high d r
    unfold_case r (inl (other, same, within)) =
        inr ((λ h. other (omega (arith, wl, h.0), h.1)), same, within)
    unfold_case r (inr (same, zero, neg)) = inl (omega (arith, less), neg, zero)

    go :
        (r : ℕ) × (fold_back low high res ≡ ok r) × Folded low high res r
        → (l : Int64Limiter) × (r : ℕ) × (new_int64_limiter low high ≡ ok l)
          × (limit l v ≡ ok r)
          × Limited low high d r
    go (r, e, f) = (
      record { min_value = low; max_value = high; distance = distance_of low high },
      r,
      rw ordered refl,
      limited r e,
      unfold_case r f,
    )
