-- ===== src/Generators.antt =====
-- internal/generators: generator.go, utils.go, hash_reducer.go, projector.go, hash.go. A generator
-- is its two methods; `S` is the state of all generators, which Generate may change.
pub mod Random
pub mod Sizes
pub mod Integers
pub mod Limits
pub mod Choices
pub mod Strings
pub mod Picks
pub mod StringLengths
mod Tests
use greenmask.Common.{
  ℕ, zero, suc, ◌+◌, ◌*◌, ◌-◌, ◌/◌, ◌%◌, ◌^◌, ◌≤◌, ◌≡◌, Bytes, Option, none, some, List, [], ◌∷◌,
  ◌++◌, Bool, String, Result, ok, err, wrap, panicked, stuck, on_ok, Exec, pure, raise, panic,
  label, ◌>>=◌, ltb, leb, ◌==◌, if◌then◌else◌, length, take, unknown_hash, no_hash_size,
  generator_too_small,
}

pub record Generator (S : Type 0) : Type 0 where
  pub generate : Bytes → Exec S Bytes
  pub size : ℕ

-- `bytes[:n]`, for slices with no capacity beyond their length.
unfoldable pub slice_to : {S : Type 0} → ℕ → Bytes → Exec S Bytes
slice_to n bytes = if leb n (length bytes) then pure (take n bytes) else panic

-- binary.LittleEndian.PutUint64 and PutUint32 by the number of bytes, and their inverse.
unfoldable pub put_little_endian : ℕ → ℕ → Bytes
put_little_endian zero value = []
put_little_endian (suc n) value = value % 256 ∷ put_little_endian n (value / 256)

unfoldable pub little_endian : Bytes → ℕ
little_endian [] = 0
little_endian (b ∷ bytes) = b + 256 * little_endian bytes

unfoldable pub build_bytes_from_uint64 : ℕ → Bytes
unfolding put_little_endian
build_bytes_from_uint64 value = put_little_endian 8 value

-- An int64 is its pattern, which the conversion to uint64 keeps.
unfoldable pub build_bytes_from_int64 : ℕ → Bytes
unfolding put_little_endian
build_bytes_from_int64 value = put_little_endian 8 value

unfoldable pub build_uint64_from_bytes : {S : Type 0} → Bytes → Exec S ℕ
unfolding slice_to little_endian
build_uint64_from_bytes bytes =
    if length bytes == 8
    then pure (little_endian bytes)
    else do int_bytes ← slice_to 8 bytes; pure (little_endian int_bytes)

unfoldable pub build_int64_from_bytes : {S : Type 0} → Bytes → Exec S ℕ
unfolding slice_to little_endian
build_int64_from_bytes bytes =
    if length bytes == 8
    then pure (little_endian bytes)
    else do int_bytes ← slice_to 8 bytes; pure (little_endian int_bytes)

-- binary.LittleEndian.Uint32(bytes[:4])
unfoldable pub uint32_of : {S : Type 0} → Bytes → Exec S ℕ
unfolding slice_to little_endian
uint32_of bytes = do int_bytes ← slice_to 4 bytes; pure (little_endian int_bytes)

-- The check that every transformer's SetGenerator makes before it keeps the generator.
unfoldable pub set_generator : {S : Type 0} → ℕ → Generator S → Result (Generator S)
set_generator byte_length g =
    if ltb g.size byte_length then err (generator_too_small byte_length g.size) else ok g

module _ {S : Type 0} where
  -- HashReducer.Generate and NewHashReducer.
  unfoldable pub reduced_generate : Generator S → ℕ → Bytes → Exec S Bytes
  unfolding slice_to
  reduced_generate g size bytes = do res ← g.generate bytes; slice_to size res

  unfoldable pub new_hash_reducer : Generator S → ℕ → Generator S
  unfolding reduced_generate
  new_hash_reducer g size = record { generate = reduced_generate g size; size = size }

  -- Projector.Generate. The number of the generator in the text of an error is left out.
  unfoldable pub project : List (Generator S) → Bytes → Exec S Bytes
  project [] res = pure res
  project (g ∷ generators) res =
      label "error generating data using %d genrator" (g.generate res) >>= project generators

  -- Projector.Size; with no generators the index is out of range.
  unfoldable pub projector_size : List (Generator S) → Option ℕ
  projector_size [] = none
  projector_size (g ∷ []) = some g.size
  projector_size (_ ∷ g ∷ generators) = projector_size (g ∷ generators)

-- The names that NewHash knows, and any other name.
pub data HashName : Type 0 where
  sha1_name sha256_name sha512_name sha3_224 sha3_256 sha3_384 sha3_512 other_name : HashName

unfoldable pub get_hash_function_name_by_size : ℕ → Result (HashName × ℕ)
get_hash_function_name_by_size size =
    if leb size 28
    then ok (sha3_224, 28)
    else if leb size 32
    then ok (sha3_256, 32)
    else if leb size 48
    then ok (sha3_384, 48)
    else if leb size 64
    then ok (sha3_512, 64)
    else err no_hash_size

-- `fmt.Errorf(msg, err)` for an error of a function with no state.
abbrev pub relabel {ℓ} : {A : Type ℓ} → String → Result A → Result A
relabel msg (ok a) = ok a
relabel msg (err e) = err (wrap msg e)
relabel msg panicked = panicked
relabel msg stuck = stuck

-- The crypto libraries are parameters: the digest of a message and its size.
module _ {S : Type 0} (digest : HashName → Bytes → Bytes) (digest_size : HashName → ℕ) where
  -- Write never fails, Sum appends the digest of what was written, and Reset drops that.
  abbrev pub hash_generator : Bytes → HashName → Generator S
  hash_generator salt name = record {
    generate = λ bytes. pure (digest name (salt ++ bytes));
    size = digest_size name;
  }

  unfoldable pub new_hash : Bytes → HashName → Result (Generator S)
  new_hash salt other_name = err unknown_hash
  new_hash salt sha1_name = ok (hash_generator salt sha1_name)
  new_hash salt sha256_name = ok (hash_generator salt sha256_name)
  new_hash salt sha512_name = ok (hash_generator salt sha512_name)
  new_hash salt sha3_224 = ok (hash_generator salt sha3_224)
  new_hash salt sha3_256 = ok (hash_generator salt sha3_256)
  new_hash salt sha3_384 = ok (hash_generator salt sha3_384)
  new_hash salt sha3_512 = ok (hash_generator salt sha3_512)

  -- `if size < hashSize { g = NewHashReducer(g, size) }`
  abbrev pub reduced : ℕ → ℕ → Generator S → Generator S
  reduced size hash_size g = if ltb size hash_size then new_hash_reducer g size else g

  -- NewHash with the wrapped error, and the reducer.
  abbrev pub hash_of : Bytes → ℕ → HashName × ℕ → Result (Generator S)
  hash_of salt size (name, hash_size) =
      on_ok (relabel "cannot create hash function backend" (new_hash salt name))
        (λ g. ok (reduced size hash_size g))

  unfoldable pub get_hash_bytes_gen : Bytes → ℕ → Result (Generator S)
  unfolding get_hash_function_name_by_size
  get_hash_bytes_gen salt size =
      on_ok
        (relabel "unable to determine hash function for deterministic transformer"
          (get_hash_function_name_by_size size))
        (hash_of salt size)
