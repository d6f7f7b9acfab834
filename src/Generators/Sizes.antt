-- ===== src/Generators/Sizes.antt =====
-- Generators give the bytes that their Size promises.
use greenmask.Common.{
  ℕ, List, ◌/◌, ◌^◌, zero, suc, ◌+◌, ◌*◌, ◌≤◌, ◌<◌, ◌≡◌, refl, ap, Bytes, [], ◌∷◌, ◌++◌, ok,
  Bool-cases, inl, inr, ltb, leb, le→leb, length, take, length-append, arith, leb→le,
}
use native.Mathlib.Nat.{pow-suc}
use greenmask.Generators.{
  Generator, HashName, sha3_224, sha3_256, sha3_384, sha3_512, slice_to, reduced_generate,
  new_hash_reducer, reduced, put_little_endian, build_bytes_from_uint64, hash_generator, new_hash,
  get_hash_bytes_gen, get_hash_function_name_by_size, little_endian, build_uint64_from_bytes,
}
use greenmask.Generators.Random.{append_random, random_bytes, iterations}

pub length-take : {A : Type 0} (n : ℕ) (xs : List A) → n ≤ length xs → length (take n xs) ≡ n
length-take zero xs le = refl
length-take (suc n) [] le = absurd (omega arith)
length-take (suc n) (x ∷ xs) le = ap suc (length-take n xs (omega arith))

pub length-put_little_endian : (n value : ℕ) → length (put_little_endian n value) ≡ n
unfolding put_little_endian
length-put_little_endian zero value = refl
length-put_little_endian (suc n) value = ap suc (length-put_little_endian n (value / 256))

-- Every call returns, with exactly the bytes that Size announces.
unfoldable pub IsSized : {S : Type 0} → Generator S → Type 0
IsSized {S} g =
    (bytes : Bytes) (s : S)
    → (out : Bytes) × (t : S) × (g.generate bytes s ≡ ok (out, t)) × (length out ≡ g.size)

pub slice_to_ok :
    {S : Type 0} (n : ℕ) (bytes : Bytes) (s : S)
    → n ≤ length bytes
    → slice_to n bytes s ≡ ok (take n bytes, s)
unfolding slice_to
slice_to_ok n bytes s le = rw (le→leb n (length bytes) le) refl

new_hash_reducer-IsSized :
    {S : Type 0} (g : Generator S) (size : ℕ)
    → size ≤ g.size
    → IsSized g
    → IsSized (new_hash_reducer g size)
unfolding IsSized new_hash_reducer reduced_generate
new_hash_reducer-IsSized g size le h bytes s =
    let (out, t, e, n) = h bytes s in
    (
      take size out,
      t,
      (rw e (slice_to_ok size out t (omega arith))),
      length-take size out (omega arith),
    )

-- What the crypto libraries document of the digests that the code relies on.
pub record DigestLaws (digest : HashName → Bytes → Bytes) (digest_size : HashName → ℕ)
    : Type 0 where
  pub length-digest :
      (name : HashName) (bytes : Bytes) → length (digest name bytes) ≡ digest_size name
  pub size_224 : digest_size sha3_224 ≡ 28
  pub size_256 : digest_size sha3_256 ≡ 32
  pub size_384 : digest_size sha3_384 ≡ 48
  pub size_512 : digest_size sha3_512 ≡ 64

module _ (S : Type 0) (digest : HashName → Bytes → Bytes) (digest_size : HashName → ℕ)
    (laws : DigestLaws digest digest_size) where
  hash_generator-IsSized :
      (salt : Bytes) (name : HashName)
      → IsSized (hash_generator {S = S} digest digest_size salt name)
  unfolding IsSized
  hash_generator-IsSized salt name bytes s =
      (digest name (salt ++ bytes), s, refl, laws.length-digest name (salt ++ bytes))

  reduced-IsSized :
      (size : ℕ) (salt : Bytes) (name : HashName) (n : ℕ)
      → digest_size name ≡ n
      → size ≤ n
      → (g : Generator S) × (reduced digest digest_size size n
            (hash_generator digest digest_size salt name)
          ≡ g)
        × (g.size ≡ size)
        × IsSized g
  unfolding new_hash_reducer
  reduced-IsSized size salt name n e le = elim (Bool-cases (ltb size n)) [
    | inl lt ↦ (
      new_hash_reducer (hash_generator digest digest_size salt name) size,
      (rw lt refl),
      refl,
      new_hash_reducer-IsSized (hash_generator digest digest_size salt name) size (omega arith)
          (hash_generator-IsSized salt name),
    )
    | inr ge ↦ (
      hash_generator digest digest_size salt name,
      (rw ge refl),
      ground arith,
      hash_generator-IsSized salt name,
    )
  ]

  picked-IsSized :
      (salt : Bytes) (size : ℕ) (name : HashName) (n : ℕ)
      → get_hash_function_name_by_size size ≡ ok (name, n)
      → new_hash digest digest_size salt name
        ≡ ok (hash_generator {S = S} digest digest_size salt name)
      → digest_size name ≡ n
      → size ≤ n
      → (g : Generator S) × (get_hash_bytes_gen digest digest_size salt size ≡ ok g)
        × (g.size ≡ size)
        × IsSized g
  unfolding get_hash_bytes_gen
  picked-IsSized salt size name n found made e le =
      let (g, eq, size_eq, h) = reduced-IsSized size salt name n e le in
      (g, (rw (found, made) (ap ok eq)), size_eq, h)

  -- For at most 64 bytes GetHashBytesGen succeeds, and its generator announces exactly that many
  -- bytes and returns exactly that many for every input, when the digests have the documented
  -- sizes.
  pub get_hash_bytes_gen-IsSized :
      (salt : Bytes) (size : ℕ)
      → size ≤ 64
      → (g : Generator S) × (get_hash_bytes_gen digest digest_size salt size ≡ ok g)
        × (g.size ≡ size)
        × IsSized g
  unfolding get_hash_function_name_by_size new_hash
  get_hash_bytes_gen-IsSized salt size le =
      let pick = picked-IsSized salt size in
      elim (Bool-cases (leb size 28)) [
        | inl e ↦ pick sha3_224 28 (rw e refl) refl laws.size_224 (leb→le size 28 e)
        | inr e ↦ elim (Bool-cases (leb size 32)) [
          | inl f ↦ pick sha3_256 32 (rw (e, f) refl) refl laws.size_256 (leb→le size 32 f)
          | inr f ↦ elim (Bool-cases (leb size 48)) [
            | inl g ↦ pick sha3_384 48 (rw (e, f, g) refl) refl laws.size_384 (leb→le size 48 g)
            | inr g ↦ pick sha3_512 64 (rw (e, f, g, le→leb size 64 le) refl) refl laws.size_512 le
          ]
        ]
      ]

append_random-length :
    {S : Type 0} (uint64 : S → ℕ × S) (seed : ℕ → S → S) (n : ℕ) (res : Bytes) (s : S)
    → length ((append_random uint64 seed n res s).0) ≡ length res + n * 8
unfolding append_random build_bytes_from_uint64
append_random-length uint64 seed zero res s = omega arith
append_random-length uint64 seed (suc n) res s = omega (
  arith,
  append_random-length uint64 seed n (res ++ build_bytes_from_uint64 (uint64 s).0) (uint64 s).1,
  length-append res (build_bytes_from_uint64 (uint64 s).0),
  length-put_little_endian 8 (uint64 s).0,
)

iterations-enough : (size : ℕ) → size ≤ iterations size * 8
iterations-enough size = ground arith

-- A RandomBytes generator of any size returns exactly that many bytes at every call, whatever the
-- random source is.
pub random_bytes-IsSized :
    {S : Type 0} (uint64 : S → ℕ × S) (seed : ℕ → S → S) (size : ℕ)
    → IsSized (random_bytes uint64 seed size)
unfolding IsSized random_bytes
random_bytes-IsSized uint64 seed size bytes s =
    let (out, t) = append_random uint64 seed (iterations size) [] s in
    let enough : size ≤ length (append_random uint64 seed (iterations size) [] s).0 =
      omega
        (arith, append_random-length uint64 seed (iterations size) [] s, iterations-enough size) in
    (take size out, t, slice_to_ok size out t enough, length-take size out enough)

little_endian-put :
    (n value : ℕ) → value < 256 ^ n → little_endian (put_little_endian n value) ≡ value
unfolding little_endian put_little_endian
little_endian-put zero value lt = omega arith
little_endian-put (suc n) value lt =
    omega (arith, little_endian-put n (value / 256) (less n value lt))
  where
    less : (n value : ℕ) → value < 256 ^ suc n → value / 256 < 256 ^ n
    less n value lt = omega (arith, pow-suc 256 n)

-- The bytes that are built from a uint64 are read back as that number.
pub build_uint64-build_bytes :
    {S : Type 0} (value : ℕ) (s : S)
    → value < 2 ^ 64
    → build_uint64_from_bytes (build_bytes_from_uint64 value) s ≡ ok (value, s)
unfolding build_uint64_from_bytes build_bytes_from_uint64 little_endian put_little_endian
build_uint64-build_bytes value s lt = ap (λ v. ok (v, s)) (little_endian-put 8 value lt)
