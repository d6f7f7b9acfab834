-- ===== src/Generators/Tests.antt =====
-- The theorems on generators at a counter in place of the random numbers, and at digests of zeros.
use greenmask.Common.{
  ℕ, zero, suc, ◌+◌, ◌-◌, ◌%◌, ◌^◌, ◌<◌, ◌≤◌, ◌≡◌, refl, Bytes, codes, List, [], ◌∷◌, ok, length,
  arith,
}
use greenmask.Generators.{
  Generator, HashName, sha1_name, sha256_name, sha512_name, sha3_224, sha3_256, sha3_384, sha3_512,
  other_name, get_hash_bytes_gen, build_uint64_from_bytes, build_bytes_from_uint64,
}
use greenmask.Generators.Random.{random_bytes}
use greenmask.Generators.Sizes.{
  IsSized, DigestLaws, get_hash_bytes_gen-IsSized, random_bytes-IsSized, build_uint64-build_bytes,
}
use greenmask.Generators.Limits.{Int64Limiter, new_int64_limiter, limit, distance_of}
use greenmask.Generators.Limits.Bounds.{limit-Within, Limited}
use greenmask.Generators.Choices.{transform_choice}
use greenmask.Generators.Picks.{transform_choice-All}
use greenmask.Generators.Strings.{RandomString, make_runes}

abbrev count : ℕ → ℕ × ℕ
count s = (s, s + 1)

abbrev reseed : ℕ → ℕ → ℕ
reseed n s = n

abbrev zeros : ℕ → Bytes
zeros zero = []
zeros (suc n) = 0 ∷ zeros n

abbrev sizes : HashName → ℕ
sizes sha3_224 = 28
sizes sha3_256 = 32
sizes sha3_384 = 48
sizes sha3_512 = 64
sizes sha1_name = 20
sizes sha256_name = 32
sizes sha512_name = 64
sizes other_name = 0

abbrev zero_digest : HashName → Bytes → Bytes
zero_digest name bytes = zeros (sizes name)

length-zeros : (n : ℕ) → length (zeros n) ≡ n
length-zeros zero = refl
length-zeros (suc n) = omega (arith, length-zeros n)

zero_digest-DigestLaws : DigestLaws zero_digest sizes
zero_digest-DigestLaws = record {
  length-digest = λ name bytes. length-zeros (sizes name);
  size_224 = refl;
  size_256 = refl;
  size_384 = refl;
  size_512 = refl;
}

get_hash_bytes_gen-IsSized_example :
    (g : Generator ℕ) × (get_hash_bytes_gen zero_digest sizes (codes "salt") 30 ≡ ok g)
    × (g.size ≡ 30)
    × IsSized g
get_hash_bytes_gen-IsSized_example =
    get_hash_bytes_gen-IsSized ℕ zero_digest sizes zero_digest-DigestLaws (codes "salt") 30
      (omega arith)

abbrev counter : Generator ℕ
counter = random_bytes count reseed 20

random_bytes-IsSized_example : IsSized counter
random_bytes-IsSized_example = random_bytes-IsSized count reseed 20

build_uint64-build_bytes_example :
    build_uint64_from_bytes {S = ℕ} (build_bytes_from_uint64 0x0102030405) 7 ≡ ok (0x0102030405, 7)
build_uint64-build_bytes_example = build_uint64-build_bytes 0x0102030405 7 (omega arith)

-- The case of a number that the distance divides, under a negative least value.
limit-Within_example :
    (l : Int64Limiter) × (r : ℕ) × (new_int64_limiter (2 ^ 64 - 10) 5 ≡ ok l)
    × (limit l 30 ≡ ok r)
    × Limited (2 ^ 64 - 10) 5 (30 % distance_of (2 ^ 64 - 10) 5) r
limit-Within_example = limit-Within (2 ^ 64 - 10) 5 30 (omega arith) (omega arith) refl

abbrev small_values : List ℕ
small_values = 3 ∷ 5 ∷ 8 ∷ []

counter-IsSized : IsSized counter
counter-IsSized = random_bytes-IsSized count reseed 20

counter_size : 5 ≤ counter.size
unfolding random_bytes
counter_size = omega arith

transform_choice-All_example :
    (v : ℕ) × (t : ℕ) × (transform_choice counter small_values (codes "a") 100 ≡ ok (v, t))
    × (v < 10)
transform_choice-All_example =
    transform_choice-All (λ v. v < 10) counter small_values (codes "a") 100 counter-IsSized
      (omega (arith, counter_size)) (omega arith) (omega arith, (omega arith, (omega arith, tt)))

abbrev letters : RandomString
letters = record {
  characters = codes "abc";
  min_length = 2;
  max_length = 9;
  byte_length = 28;
  required_bytes_per_char = 1;
  offset_from_min_len = 8;
  buf = make_runes 9;
}
