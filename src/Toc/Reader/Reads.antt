-- ===== src/Toc/Reader/Reads.antt =====
-- What the functions of the reader do on an input that starts with given bytes.
use greenmask.Common.{
  ℕ, ◌+◌, ◌<◌, ◌^◌, ◌≡◌, ap, ◌∙◌, String, Bytes, Option, none, some, [], ◌∷◌, ◌++◌, append_assoc,
  append-nil, false, Exec, pure, label, modify, ◌>>=◌, ◌>>◌, ok, bind_of_ok, label_of_ok, le→leb,
  if◌then◌else◌, length, length-append, take-append, drop-append, arith, IsWord32, ◌-◌, ◌==◌, neg32,
  lt→ltb, lt→leb_false, inl, inr, Bool-cases, is_neg32,
}
use greenmask.Toc.Version.{backup_version}
use greenmask.Toc.Reader.{
  Reader, read_full, advance, read_bytes, first, read_byte, read_sign, read_signed, assemble,
  value_of, read_int, read_str,
}
use greenmask.Toc.Encoding.{magnitude_bytes, int_bytes, str_bytes, FitsStr}

-- The reader's state but for its input and position.
pub record Context : Type 0 where
  pub int_size : ℕ
  pub version : ℕ
  pub max_dump_id : ℕ

abbrev pub at : Bytes → Context → ℕ → Reader
at input c p = record {
  input = input;
  int_size = c.int_size;
  version = c.version;
  position = p;
  max_dump_id = c.max_dump_id;
}

-- The context behind the preamble of an archive that can be written.
abbrev pub ready : ℕ → ℕ → Context
ready version max_dump_id = record { int_size = 4; version = version; max_dump_id = max_dump_id }

-- `r` takes exactly `bytes` off its input, whatever follows them, and returns `x`.
pub record Reads {A : Type 0} (c : Context) (r : Exec Reader A) (bytes : Bytes) (x : A)
    (c' : Context) : Type 0 where
  pub run :
      (rest : Bytes) (p : ℕ) → r (at (bytes ++ rest) c p) ≡ ok (x, at rest c' (p + length bytes))

module _ {A B : Type 0} {c c' c'' : Context} where
  pub Reads-bind :
      (m : Exec Reader A) (k : A → Exec Reader B) {b₁ b₂ : Bytes} {a : A} {y : B}
      → Reads c m b₁ a c'
      → Reads c' (k a) b₂ y c''
      → Reads c (m >>= k) (b₁ ++ b₂) y c''
  Reads-bind m k {b₁} {b₂} {a} {y} h₁ h₂ = record {
    run = λ rest p. rw (append_assoc b₁ b₂ rest) (
        bind_of_ok m k (h₁.run (b₂ ++ rest) p)
        ∙ h₂.run rest (p + length b₁)
        ∙ ap (λ q. ok (y, at rest c'' q)) (omega (arith, length-append b₁ b₂)));
  }

pub Reads-pure : {A : Type 0} {c : Context} (x : A) → Reads c (pure x) [] x c
Reads-pure {c} x = record { run = λ rest p. ap (λ q. ok (x, at rest c q)) (omega arith) }

module _ {A : Type 0} {c c' : Context} where
  pub Reads-label :
      (msg : String) (m : Exec Reader A) {bytes : Bytes} {x : A}
      → Reads c m bytes x c'
      → Reads c (label msg m) bytes x c'
  Reads-label msg m h = record { run = λ rest p. label_of_ok msg m (h.run rest p) }

pub Reads-modify :
    (c c' : Context) (f : Reader → Reader)
    → ((rest : Bytes) (p : ℕ) → f (at rest c p) ≡ at rest c' p)
    → Reads c (modify f) [] tt c'
Reads-modify c c' f h = record {
  run = λ rest p. ap (λ s. ok (tt, s)) (h rest p ∙ ap (at rest c') (omega arith));
}

read_full-append :
    (bytes rest : Bytes) (c : Context) (p : ℕ)
    → read_full (length bytes) (at (bytes ++ rest) c p) ≡ ok (bytes, at rest c p)
unfolding read_full
read_full-append bytes rest c p =
    let enough =
      le→leb (length bytes) (length (bytes ++ rest)) (omega (arith, length-append bytes rest)) in
    rw (enough, take-append bytes rest, drop-append bytes rest)

pub Reads-read_bytes :
    (c : Context) (bytes : Bytes) → Reads c (read_bytes (length bytes)) bytes bytes c
unfolding read_bytes
Reads-read_bytes c bytes = record { run = λ rest p. rw (read_full-append bytes rest c p) }

pub Reads-read_byte : (c : Context) (b : ℕ) → Reads c read_byte (b ∷ []) b c
unfolding read_byte
Reads-read_byte c b = record {
  run = λ rest p.
      bind_of_ok (read_bytes 1) first {s = at (b ∷ rest) c p}
        ((Reads-read_bytes c (b ∷ [])).run rest p);
}

assemble-int_bytes : (x : ℕ) → IsWord32 x → assemble (magnitude_bytes x) 0 0 ≡ x
unfolding assemble
assemble-int_bytes x h = ground arith

-- The reader's way to take `length bytes` bytes in the middle of a function.
Reads-read_full :
    {A : Type 0} {c c' : Context} (k : Bytes → Exec Reader A) (bytes : Bytes) {b₂ : Bytes} {y : A}
    → Reads c (k bytes) b₂ y c'
    → Reads c
        (read_full (length bytes) >>= λ b. modify (advance (length bytes)) >> k b)
        (bytes ++ b₂)
        y
        c'
unfolding advance
Reads-read_full {c} {c'} k bytes {b₂} {y} h = record {
  run = λ rest p. rw (append_assoc bytes b₂ rest) (
      bind_of_ok (read_full (length bytes)) (λ b. modify (advance (length bytes)) >> k b)
        (read_full-append bytes (b₂ ++ rest) c p)
      ∙ h.run rest (p + length bytes)
      ∙ ap (λ q. ok (y, at rest c' q)) (omega (arith, length-append bytes b₂)));
}

value_of-magnitude_bytes :
    (sign x : ℕ)
    → IsWord32 x
    → value_of sign (magnitude_bytes x) ≡ (if sign == 0 then x else neg32 x)
unfolding value_of
value_of-magnitude_bytes sign x h = rw (assemble-int_bytes x h)

module _ (v m : ℕ) (late : 65536 < v) where
  Reads-read_sign : (b : ℕ) → Reads (ready v m) (read_sign v) (b ∷ []) b (ready v m)
  unfolding read_sign backup_version
  Reads-read_sign b = rw (lt→ltb 65536 v late) (Reads-label _ _ (Reads-read_byte _ b))

  Reads-read_signed :
      (sign x : ℕ)
      → IsWord32 x
      → Reads
          (ready v m)
          (read_signed 4 v)
          (sign ∷ magnitude_bytes x)
          (if sign == 0 then x else neg32 x)
          (ready v m)
  unfolding read_signed
  Reads-read_signed sign x h = rw (← value_of-magnitude_bytes sign x h) (
      Reads-bind _ _ (Reads-read_sign sign)
        (Reads-read_full (λ b. pure (value_of sign b)) (magnitude_bytes x) (Reads-pure _)))

  pub Reads-read_int : (x : ℕ) → IsWord32 x → Reads (ready v m) read_int (int_bytes x) x (ready v m)
  unfolding read_int
  Reads-read_int x h = elim (Bool-cases (is_neg32 x)) [
    | inl e ↦
        let twice : neg32 (neg32 x) ≡ x = omega arith in
        rw e (record {
          run = λ rest p.
              rw nonzero (rw twice at ((Reads-read_signed 1 (neg32 x) (omega arith)).run rest p));
        })
    | inr e ↦ rw e (record { run = λ rest p. rw nonzero ((Reads-read_signed 0 x h).run rest p) })
  ]
    where
      nonzero : (v == 0) ≡ false
      nonzero = ground arith

  pub Reads-read_str :
      (s : Option Bytes) → FitsStr s → Reads (ready v m) read_str (str_bytes s) s (ready v m)
  unfolding read_str
  Reads-read_str none h =
      Reads-bind read_int _ (Reads-read_int (2 ^ 32 - 1) (omega arith)) (Reads-pure none)
  Reads-read_str (some s) h = Reads-bind read_int _ (Reads-read_int (length s) (omega arith)) (
      rw (lt→leb_false (2 ^ 31) (length s) h) (
        rw append-nil at
          (Reads-read_full {c = ready v m} (λ buf. pure (some buf)) s (Reads-pure (some s)))))
