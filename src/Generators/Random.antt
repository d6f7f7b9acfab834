-- ===== src/Generators/Random.antt =====
-- random_bytes.go, random_int64.go and hybrid.go. Go's math/rand is a parameter: Uint64 on the
-- state of the source, and Seed, which replaces that state.
use greenmask.Common.{
  ℕ, zero, suc, ◌+◌, ◌-◌, ◌/◌, ◌%◌, Bytes, [], ◌++◌, Exec, pure, panic, modify, ok, ◌>>=◌, ◌>>◌,
  ltb, if◌then◌else◌, length, drop,
}
use greenmask.Generators.{Generator, slice_to, build_bytes_from_uint64, little_endian}

-- `iters := size / 8; if size%8 > 0 { iters += 1 }`
abbrev pub iterations : ℕ → ℕ
iterations size = if ltb 0 (size % 8) then size / 8 + 1 else size / 8

module _ {S : Type 0} (uint64 : S → ℕ × S) (seed : ℕ → S → S) where
  -- The loop that appends the bytes of random numbers.
  unfoldable pub append_random : ℕ → Bytes → S → Bytes × S
  append_random zero res s = (res, s)
  append_random (suc n) res s =
      append_random n (res ++ build_bytes_from_uint64 (uint64 s).0) (uint64 s).1

  -- The loop as a step of Generate, and the slice at its end.
  abbrev pub random_from : ℕ → Bytes → ℕ → Exec S Bytes
  random_from iters res size = (λ s. ok (append_random iters res s)) >>= slice_to size

  unfoldable pub random_bytes : ℕ → Generator S
  unfolding append_random slice_to
  random_bytes size = record {
    generate = λ bytes. random_from (iterations size) [] size;
    size = size;
  }

  unfoldable pub random_int64 : Generator S
  random_int64 = record {
    generate = λ bytes s. ok (build_bytes_from_uint64 (uint64 s).0, (uint64 s).1);
    size = 8;
  }

  -- NewHybridBytes: the number of random numbers that follow the generator's bytes.
  abbrev pub hybrid_iterations : ℕ → ℕ → ℕ
  hybrid_iterations gen_size requested_size = iterations (requested_size - gen_size)

  -- `binary.LittleEndian.Uint64(res[len(res)-8:])`, which panics on fewer bytes.
  abbrev pub seed_of : Bytes → Exec S ℕ
  seed_of res =
      if ltb (length res) 8 then panic else pure (little_endian (drop (length res - 8) res))

  -- HybridBytes.Generate behind the generator's bytes.
  abbrev pub extend : ℕ → ℕ → Bytes → Exec S Bytes
  extend gen_size requested_size res = do
    n ← seed_of res
    modify (seed n)
    random_from (hybrid_iterations gen_size requested_size) res requested_size

  -- The panic is NewHybridBytes's.
  unfoldable pub hybrid_generate : Generator S → ℕ → Bytes → Exec S Bytes
  unfolding append_random slice_to
  hybrid_generate g requested_size bytes =
      if ltb g.size 8 then panic else g.generate bytes >>= extend g.size requested_size
