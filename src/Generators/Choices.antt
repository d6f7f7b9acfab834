-- ===== src/Generators/Choices.antt =====
-- transformers/random_choice.go, random_company.go and random_person.go: values that are picked by
-- the generator's bytes. A map is an association list, and an absent key has no values.
use greenmask.Common.{
  ℕ, ◌*◌, ◌%◌, Bytes, codes, bytes_eq, none, some, List, [], ◌∷◌, ◌||◌, Exec, pure, raise, panic,
  ◌>>=◌, get_elem?, length, drop, if◌then◌else◌, ◌==◌, unknown_gender,
}
use greenmask.Generators.{Generator, uint32_of}
use greenmask.Generators.Integers.{byte_at}

-- `values[i % len(values)]`, which panics when there are none.
abbrev pub pick : {S A : Type 0} → List A → ℕ → Exec S A
pick values i =
    if length values == 0
    then panic
    else elim (get_elem? values (i % length values)) [ none ↦ panic | some v ↦ pure v ]

unfoldable pub transform_choice : {S A : Type 0} → Generator S → List A → Bytes → Exec S A
transform_choice g values original = g.generate original >>= uint32_of >>= pick values

-- attribute name → possible values
abbrev pub Attributes : Type 0
Attributes = List (Bytes × List Bytes)

abbrev pub lookup : {A : Type 0} → List (Bytes × A) → A → Bytes → A
lookup [] absent key = absent
lookup ((name, value) ∷ db) absent key = if bytes_eq name key then value else lookup db absent key

-- The loop of GetCompanyName over the attribute names, each with the next four bytes.
unfoldable pub pick_attributes :
    {S : Type 0} → Attributes → List Bytes → Bytes → Exec S (List (Bytes × Bytes))
pick_attributes db [] bytes = pure []
pick_attributes db (attr ∷ attributes) bytes = do
  i ← uint32_of bytes
  value ← pick (lookup db [] attr) i
  rest ← pick_attributes db attributes (drop 4 bytes)
  pure ((attr, value) ∷ rest)

unfoldable pub get_company_name :
    {S : Type 0} → Generator S → Attributes → List Bytes → Bytes → Exec S (List (Bytes × Bytes))
get_company_name g db attributes original = g.generate original >>= pick_attributes db attributes

-- `if gender == "" { gender = rpt.gender }` and the switch.
abbrev pub gender_of : {S : Type 0} → List Bytes → Bytes → ℕ → Exec S Bytes
gender_of genders gender i =
    if bytes_eq gender (codes "Male") || bytes_eq gender (codes "Female")
    then pure gender
    else if bytes_eq gender (codes "Any")
    then pick genders i
    else raise unknown_gender

unfoldable pub get_gender : {S : Type 0} → List Bytes → Bytes → Bytes → ℕ → Exec S Bytes
get_gender genders own gender i = gender_of genders (if bytes_eq gender [] then own else gender) i

-- The first byte picks the gender.
unfoldable pub get_full_name :
    {S : Type 0}
    → Generator S
    → List (Bytes × Attributes)
    → List Bytes
    → List Bytes
    → Bytes
    → Bytes
    → Bytes
    → Exec S (List (Bytes × Bytes))
unfolding get_gender pick_attributes
get_full_name g db genders attributes own gender original = do
  bytes ← g.generate original
  i ← byte_at 0 bytes
  chosen ← get_gender genders own gender i
  pick_attributes (lookup db [] chosen) attributes (drop 1 bytes)

-- NewRandomPersonTransformer and NewRandomCompanyTransformer: `db.AttributesCount * 4`.
abbrev pub names_byte_length : ℕ → ℕ
names_byte_length attributes_count = attributes_count * 4
