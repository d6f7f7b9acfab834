-- ===== src/Generators/Picks.antt =====
-- What the transformers pick comes from their lists.
use greenmask.Common.{
  ℕ, zero, suc, ◌%◌, ◌<◌, ◌≤◌, ◌≡◌, refl, Bytes, List, [], ◌∷◌, some, ok, All, length, take,
  get_elem?, Bool-cases, inl, inr, ==_iff, ◌==◌, arith,
}
use native.Mathlib.Nat.{mod-lt}
use greenmask.Generators.{Generator, uint32_of, little_endian}
use greenmask.Generators.Sizes.{IsSized, slice_to_ok}
use greenmask.Generators.Choices.{pick, transform_choice}

module _ {A : Type 0} (P : A → Type 0) where
  get_elem?-All :
      (xs : List A) (i : ℕ) → i < length xs → All P xs → (v : A) × (get_elem? xs i ≡ some v) × P v
  get_elem?-All [] i lt h = absurd (omega arith)
  get_elem?-All (x ∷ xs) zero lt h = (x, refl, h.0)
  get_elem?-All (x ∷ xs) (suc i) lt h = get_elem?-All xs i (omega arith) h.1

  pub pick-All :
      {S : Type 0} (xs : List A) (i : ℕ) (s : S)
      → 0 < length xs
      → All P xs
      → (v : A) × (pick xs i s ≡ ok (v, s)) × P v
  pick-All xs i s pos h =
      let (v, e, p) = get_elem?-All xs (i % length xs) (mod-lt i pos) h in
      elim (Bool-cases (length xs == 0)) [
        | inl e' ↦ absurd (omega (arith, (==_iff (length xs) 0).0 e'))
        | inr more ↦ (v, rw (more, e) refl, p)
      ]

  -- A random choice returns when there are values and the generator returns the bytes that it
  -- announces, four at least, and what holds of every value holds of the result.
  pub transform_choice-All :
      {S : Type 0} (g : Generator S) (values : List A) (original : Bytes) (s : S)
      → IsSized g
      → 4 ≤ g.size
      → 0 < length values
      → All P values
      → (v : A) × (t : S) × (transform_choice g values original s ≡ ok (v, t)) × P v
  unfolding IsSized transform_choice uint32_of
  transform_choice-All g values original s sized enough pos h =
      let (out, t, e, n) = sized original s in
      let (v, e', p) = pick-All values (little_endian (take 4 out)) t pos h in
      (v, t, (rw (e, slice_to_ok 4 out t (omega arith)) e'), p)
