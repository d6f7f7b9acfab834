-- ===== src/Toc/Reader/Termination.antt =====
-- Reading ends on every input: the one loop on fuel never runs out of it, because a string takes a
-- byte at least off the input.
use greenmask.Common.{
  ℕ, ◌+◌, ◌≤◌, ◌≡◌, ◌≢◌, refl, Bytes, none, some, [], ◌∷◌, Bool, true, false, not, Bool-cases, inl,
  inr, String, Error, unsupported_int_size, zero_version, Result, ok, err, panicked, stuck, Exec,
  pure, raise, panic, lift, label, modify, get_state, ◌>>=◌, if◌then◌else◌, leb, leb→le, ltb, ◌==◌,
  length, length-drop, ==_iff, is_neg32, arith,
}
use greenmask.Toc.Version.{backup_version}
use greenmask.Toc.Reader.{
  Reader, read_full, advance, read_bytes, first, read_byte, read_sign, read_signed, value_of,
  read_int, read_str, since,
}

-- The call does not run out of fuel, and when it returns, `k` bytes at least are gone.
abbrev pub Ends : {A : Type 0} → ℕ → Reader → Result (A × Reader) → Type 0
Ends k s (ok (_, t)) = k + length t.input ≤ length s.input
Ends k s (err e) = Unit
Ends k s panicked = Unit
Ends k s stuck = ⊥

pub record Terminates {A : Type 0} (k : ℕ) (m : Exec Reader A) : Type 0 where
  pub at : (s : Reader) → Ends k s (m s)

module _ {A B : Type 0} where
  continue_ends :
      (j k : ℕ) (s : Reader) (r : Result (A × Reader)) (m : Exec Reader A) (f : A → Exec Reader B)
      → m s ≡ r
      → Ends j s r
      → ((x : A) → Terminates k (f x))
      → Ends (j + k) s ((m >>= f) s)
  continue_ends j k s (ok (a, t)) m f e h rest = rw e (shrink (f a t) ((rest a).at t))
    where
      shrink : (r : Result (B × Reader)) → Ends k t r → Ends (j + k) s r
      shrink (ok (b, u)) g = omega arith
      shrink (err x) g = tt
      shrink panicked g = tt
      shrink stuck g = g
  continue_ends j k s (err x) m f e h rest = rw e tt
  continue_ends j k s panicked m f e h rest = rw e tt
  continue_ends j k s stuck m f e h rest = absurd h

  pub Terminates-bind :
      {j k : ℕ} {m : Exec Reader A} {f : A → Exec Reader B}
      → Terminates j m
      → ((x : A) → Terminates k (f x))
      → Terminates (j + k) (m >>= f)
  Terminates-bind {j} {k} {m} {f} h rest = record {
    at = λ s. continue_ends j k s (m s) m f refl (h.at s) rest;
  }

module _ {A : Type 0} where
  pub Terminates-pure : (x : A) → Terminates 0 (pure x)
  Terminates-pure x = record { at = λ s. omega arith }

  pub Terminates-raise : {k : ℕ} (e : Error) → Terminates k (raise {A = A} e)
  Terminates-raise e = record { at = λ s. tt }

  pub Terminates-panic : {k : ℕ} → Terminates k (panic {A = A})
  Terminates-panic = record { at = λ s. tt }

  pub Terminates-label :
      {k : ℕ} {m : Exec Reader A} (msg : String) → Terminates k m → Terminates k (label msg m)
  Terminates-label {k} {m} msg h = record { at = λ s. go s (m s) refl (h.at s) }
    where
      go : (s : Reader) (r : Result (A × Reader)) → m s ≡ r → Ends k s r → Ends k s (label msg m s)
      go s (ok (a, t)) e g = rw e g
      go s (err x) e g = rw e tt
      go s panicked e g = rw e tt
      go s stuck e g = absurd g

  pub Terminates-if :
      {k : ℕ} {m n : Exec Reader A} (b : Bool)
      → Terminates k m
      → Terminates k n
      → Terminates k (if b then m else n)
  Terminates-if true h h' = h
  Terminates-if false h h' = h'

  pub Terminates-since :
      {k : ℕ} {m n : Exec Reader A} (minor : ℕ)
      → Terminates k m
      → Terminates k n
      → Terminates k (since minor m n)
  unfolding since
  Terminates-since minor h h' = record {
    at = λ s. elim (Bool-cases (leb (backup_version minor) s.version)) [
      | inl e ↦ rw e (h.at s)
      | inr e ↦ rw e (h'.at s)
    ];
  }

pub Terminates-modify :
    (f : Reader → Reader) → ((s : Reader) → (f s).input ≡ s.input) → Terminates 0 (modify f)
Terminates-modify f keeps = record { at = λ s. rw keeps (omega arith) }

read_full_ends : (n : ℕ) → Terminates n (read_full n)
unfolding read_full
read_full_ends n = record {
  at = λ s. elim (Bool-cases (leb n (length s.input))) [
    | inl e ↦ rw e (omega (arith, leb→le _ _ e, length-drop n s.input))
    | inr e ↦ rw e tt
  ];
}

pub read_bytes_ends : (n : ℕ) → Terminates (n + 0) (read_bytes n)
unfolding read_bytes advance
read_bytes_ends n =
    Terminates-bind (read_full_ends n)
      (λ b. Terminates-bind (Terminates-modify (advance n) (λ s. refl)) (λ _. Terminates-pure b))

pub read_byte_ends : Terminates 1 read_byte
unfolding read_byte first
read_byte_ends = Terminates-bind (read_bytes_ends 1) first_ends
  where
    first_ends : (b : Bytes) → Terminates 0 (first b)
    first_ends [] = Terminates-panic
    first_ends (b ∷ _) = Terminates-pure b

module _ {A : Type 0} where
  pub Terminates-lift : (r : Result A) → r ≢ stuck → Terminates 0 (lift {S = Reader} r)
  Terminates-lift (ok a) ne = record { at = λ s. omega arith }
  Terminates-lift (err e) ne = record { at = λ s. tt }
  Terminates-lift panicked ne = record { at = λ s. tt }
  Terminates-lift stuck ne = absurd (ne refl)

  pub Terminates-get_state :
      {k : ℕ} {f : Reader → Exec Reader A}
      → ((s : Reader) → Terminates k (f s))
      → Terminates k (get_state >>= f)
  Terminates-get_state h = record { at = λ s. (h s).at s }

  -- Fewer bytes are gone.
  pub Terminates-le : {j k : ℕ} {m : Exec Reader A} → j ≤ k → Terminates k m → Terminates j m
  Terminates-le {j} {k} {m} le h = record { at = λ s. shrink s (m s) (h.at s) }
    where
      shrink : (s : Reader) (r : Result (A × Reader)) → Ends k s r → Ends j s r
      shrink s (ok (a, t)) g = omega arith
      shrink s (err x) g = tt
      shrink s panicked g = tt
      shrink s stuck g = g

pub Terminates-then :
    {A B : Type 0} {j : ℕ} {m : Exec Reader A} {f : A → Exec Reader B}
    → Terminates j m
    → ((x : A) → Terminates 0 (f x))
    → Terminates 0 (m >>= f)
Terminates-then h rest = Terminates-le (omega arith) (Terminates-bind h rest)

read_sign_ends : (version : ℕ) → Terminates 0 (read_sign version)
unfolding read_sign
read_sign_ends version =
    Terminates-if (ltb (backup_version 0) version)
      (Terminates-label "cannot read srcFile byte" (Terminates-le (omega arith) read_byte_ends))
      (Terminates-pure 0)

read_signed_ends : (int_size version : ℕ) → Terminates int_size (read_signed int_size version)
unfolding read_signed advance
read_signed_ends int_size version = Terminates-le (omega arith) (
    Terminates-bind (read_sign_ends version) (λ sign.
      Terminates-bind (read_full_ends int_size) (λ b.
        Terminates-bind (Terminates-modify (advance int_size) (λ s. refl))
          (λ _. Terminates-pure (value_of sign b)))))

pub read_int_ends : Terminates 4 read_int
unfolding read_int
read_int_ends = Terminates-get_state λ s. with_size s (s.int_size) s.version
  where
    with_size :
        (s : Reader) (int_size version : ℕ)
        → Terminates 4 (
            if not (int_size == 4)
            then raise unsupported_int_size
            else if version == 0
            then raise zero_version
            else read_signed int_size version)
    with_size s int_size version = elim (Bool-cases (int_size == 4)) [
      | inl e ↦ rw e (
          Terminates-if (version == 0) (Terminates-raise zero_version) (
            Terminates-le (omega (arith, (==_iff int_size 4).0 e))
              (read_signed_ends int_size version)))
      | inr e ↦ rw e (Terminates-raise unsupported_int_size)
    ]

pub read_str_ends : Terminates 4 read_str
unfolding read_str advance
read_str_ends = Terminates-bind read_int_ends λ l.
    Terminates-if (is_neg32 l) (Terminates-pure none) (
      Terminates-le (omega arith) (
        Terminates-bind (read_full_ends l) (λ buf.
          Terminates-bind (Terminates-modify (advance l) (λ s. refl))
            (λ _. Terminates-pure (some buf)))))
