-- ===== src/Generators/StringLengths.antt =====
-- A random string has a length between its bounds and the characters of its alphabet.
use greenmask.Common.{
  ℕ, ◌+◌, ◌-◌, ◌≤◌, ◌≡◌, List, ok, ◌>>=◌, ◌++◌, panicked, stuck, err, Result, All, length,
}
use greenmask.Generators.Strings.{RandomString, bytes_per_char}

-- The buffer after the rounds: the characters so far, and what is not written.
abbrev Rendered : (ℕ → Type 0) → ℕ → List ℕ → Type 0
Rendered P n buf =
    (out : List ℕ) × (rest : List ℕ) × (buf ≡ out ++ rest) × (length out ≡ n) × All P out

-- What NewRandomStringTransformer returns, when it returns a transformer.
abbrev IsMade : List ℕ → ℕ → ℕ → RandomString → Type 0
IsMade chars min_length max_length st =
    (st.characters ≡ chars)
    × (st.min_length ≡ min_length)
    × (st.required_bytes_per_char ≡ bytes_per_char chars)
    × (st.offset_from_min_len ≡ max_length - min_length + 1)
    × (length st.buf ≡ max_length)
    × (min_length ≤ max_length)

abbrev Returns : (RandomString → Type 0) → Result RandomString → Type 0
Returns P (ok st) = P st
Returns P (err e) = Unit
Returns P panicked = Unit
Returns P stuck = Unit
