-- ===== src/PgCopy/Decoder/Steps.antt =====
-- The decoder on what the encoder appends for one byte.
use greenmask.Common.{
  ℕ, ◌≡◌, ◌≢◌, refl, ap, ◌∙◌, Bytes, [], ◌∷◌, ◌++◌, append_assoc, Bool, true, false, not, ◌&&◌, leb,
  ltb, ◌==◌, inl, inr, ◌⊎◌, Bool-cases, arith,
}
use greenmask.PgCopy.Value.{backslash}
use greenmask.PgCopy.Encoder.{escape_byte}
use greenmask.PgCopy.Decoder.{is_octal, literal, escape_of, decode_step, decode_loop}

-- A control character with no letter of its own.
abbrev pub is_bare_control : ℕ → Bool
is_bare_control c = ltb c 0x20 && not (leb 8 c && leb c 13)

pub decode_plain :
    (c : ℕ) (more buf : Bytes)
    → c ≢ backslash
    → decode_loop (c ∷ more) 0 buf false ≡ decode_loop more 0 (buf ++ c ∷ []) false
unfolding decode_loop decode_step
decode_plain c [] buf h = ground arith
decode_plain c (d ∷ more) buf h = ground arith

decode_pair :
    (x : ℕ) (more buf : Bytes)
    → is_octal x ≡ false
    → (x == b'x') ≡ false
    → decode_loop (backslash ∷ x ∷ more) 0 buf false
      ≡ decode_loop more 0 (buf ++ literal x ∷ []) false
unfolding decode_loop decode_step escape_of
decode_pair x more buf h k = rw (h, k)

-- The control characters with a letter.
control_cases :
    (c : ℕ)
    → ltb c 0x20 ≡ true
    → is_bare_control c ≡ false
    → (c ≡ 8) ⊎ (c ≡ 9) ⊎ (c ≡ 10) ⊎ (c ≡ 11) ⊎ (c ≡ 12) ⊎ (c ≡ 13)
control_cases c low h = ground arith

decode_control :
    (c : ℕ) (more buf : Bytes)
    → (c ≡ 8) ⊎ (c ≡ 9) ⊎ (c ≡ 10) ⊎ (c ≡ 11) ⊎ (c ≡ 12) ⊎ (c ≡ 13)
    → decode_loop (escape_byte c ++ more) 0 buf false ≡ decode_loop more 0 (buf ++ c ∷ []) false
unfolding escape_byte is_octal literal
decode_control c more buf (inl e) = rw e (decode_pair b'b' more buf refl refl)
decode_control c more buf (inr (inl e)) = rw e (decode_pair b't' more buf refl refl)
decode_control c more buf (inr (inr (inl e))) = rw e (decode_pair b'n' more buf refl refl)
decode_control c more buf (inr (inr (inr (inl e)))) = rw e (decode_pair b'v' more buf refl refl)
decode_control c more buf (inr (inr (inr (inr (inl e))))) =
    rw e (decode_pair b'f' more buf refl refl)
decode_control c more buf (inr (inr (inr (inr (inr e))))) =
    rw e (decode_pair b'r' more buf refl refl)

-- Every byte but a bare control character is read back from its escape.
pub decode_escape_byte :
    (c : ℕ) (more buf : Bytes)
    → is_bare_control c ≡ false
    → decode_loop (escape_byte c ++ more) 0 buf false ≡ decode_loop more 0 (buf ++ c ∷ []) false
decode_escape_byte c more buf h = elim (Bool-cases (ltb c 0x20)) [
  | inl low ↦ decode_control c more buf (control_cases c low h)
  | inr high ↦ elim (Bool-cases (c == backslash)) [
    | inl e ↦
        let same : c ≡ backslash = ground arith in
        rw same (unfold escape_byte is_octal literal in decode_pair backslash more buf refl refl)
    | inr e ↦
        let other : c == b'\t' ≡ false = ground arith in
        unfold escape_byte in rw (high, e, other) (decode_plain c more buf (ground arith))
  ]
]

pub decode_marker :
    (m : ℕ) (more buf : Bytes)
    → m ≢ backslash
    → decode_loop (backslash ∷ backslash ∷ m ∷ more) 0 buf false
      ≡ decode_loop more 0 (buf ++ backslash ∷ m ∷ []) false
unfolding is_octal literal
decode_marker m more buf h =
    decode_pair backslash (m ∷ more) buf refl refl
    ∙ decode_plain m more (buf ++ backslash ∷ []) h
    ∙ ap (λ b. decode_loop more 0 b false) (append_assoc buf (backslash ∷ []) (m ∷ []))

escape_bare_control : (c : ℕ) → is_bare_control c ≡ true → escape_byte c ≡ c ∷ backslash ∷ c ∷ []
unfolding escape_byte
escape_bare_control c h = ground arith

-- A bare control character is written twice.
pub decode_bare_control :
    (c : ℕ) (more buf : Bytes)
    → is_bare_control c ≡ true
    → decode_loop (escape_byte c ++ more) 0 buf false ≡ decode_loop more 0 (buf ++ c ∷ c ∷ []) false
unfolding is_octal literal
decode_bare_control c more buf h =
    let taken : literal c ≡ c = ground arith in
    let pair : decode_loop (backslash ∷ c ∷ more) 0 (buf ++ c ∷ []) false
        ≡ decode_loop more 0 ((buf ++ c ∷ []) ++ c ∷ []) false =
      rw taken at (decode_pair c more (buf ++ c ∷ []) (ground arith) (ground arith)) in
    rw (escape_bare_control c h) (
      decode_plain c (backslash ∷ c ∷ more) buf (ground arith)
      ∙ pair
      ∙ ap (λ b. decode_loop more 0 b false) (append_assoc buf (c ∷ []) (c ∷ [])))
