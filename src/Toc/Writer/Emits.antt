-- ===== src/Toc/Writer/Emits.antt =====
-- What the functions of the writer append, where the sink has room for it.
use greenmask.Common.{
  ◌<◌, Error, err, wrap, short_write, leb, leb→le, lt→leb_false, bind_of_err, label_of_err, ℕ, ◌+◌,
  ◌-◌, ◌^◌, ◌%◌, ◌≤◌, ◌≡◌, inl, inr, Option, none, some, Bool-cases, is_neg32, neg32, shr8_int32,
  IsWord32, sym, ◌∙◌, Bytes, [], ◌∷◌, ◌++◌, append_assoc, append-nil, Exec, pure, label, ◌>>◌,
  Result, ok, bind_of_ok, label_of_ok, String, le→leb, length, length-append, arith,
}
use greenmask.Toc.Writer.{
  Writer, write_buf, write_byte, write_rounds, write_magnitude, write_int, write_str,
}
use greenmask.Toc.Encoding.{magnitude_bytes, int_bytes, str_bytes, FitsStr}

-- The state in the middle of a `Write` with four-byte integers.
abbrev pub at : Bytes → ℕ → ℕ → ℕ → Writer
at out room version p = record {
  out = out;
  room = room;
  int_size = 4;
  version = version;
  position = p;
}

-- `w` appends exactly `bytes`, or fails if the sink has no room for all of them.
pub record Emits (v : ℕ) (w : Exec Writer (Unit {0})) (bytes : Bytes) : Type 0 where
  pub run :
      (out : Bytes) (room p : ℕ)
      → length bytes ≤ room
      → w (at out room v p) ≡ ok (tt, at (out ++ bytes) (room - length bytes) v (p + length bytes))
  pub short :
      (out : Bytes) (room p : ℕ) → room < length bytes → (e : Error) × (w (at out room v p) ≡ err e)

abbrev written : Writer → Result (Unit {0} × Writer)
written s = ok (tt, s)

at_eq :
    (v : ℕ) {out out' : Bytes} {room room' p p' : ℕ}
    → out ≡ out'
    → room ≡ room'
    → p ≡ p'
    → written (at out room v p) ≡ written (at out' room' v p')
at_eq v e f g = λ i. written (at (e i) (f i) v (g i))

shr8_bytes :
    (x : ℕ)
    → IsWord32 x
    → (x % 256)
        ∷ (shr8_int32 x % 256)
        ∷ (shr8_int32 (shr8_int32 x) % 256)
        ∷ (shr8_int32 (shr8_int32 (shr8_int32 x)) % 256)
        ∷ []
      ≡ magnitude_bytes x
shr8_bytes x h = ground arith

module _ {v : ℕ} where
  pub Emits-then :
      (w₁ w₂ : Exec Writer (Unit {0})) {b₁ b₂ : Bytes}
      → Emits v w₁ b₁
      → Emits v w₂ b₂
      → Emits v (w₁ >> w₂) (b₁ ++ b₂)
  Emits-then w₁ w₂ {b₁} {b₂} h₁ h₂ = record {
    run = λ out room p fits.
        let sizes = length-append b₁ b₂ in
        bind_of_ok w₁ (λ _. w₂) (h₁.run out room p (omega arith))
        ∙ h₂.run (out ++ b₁) (room - length b₁) (p + length b₁) (omega arith)
        ∙ at_eq v (append_assoc out b₁ b₂) (omega arith) (omega arith);
    short = λ out room p lacks.
        let sizes = length-append b₁ b₂ in
        elim (Bool-cases (leb (length b₁) room)) [
          | inl e ↦
              let fits = leb→le _ _ e in
              let (error, failed) =
                h₂.short (out ++ b₁) (room - length b₁) (p + length b₁) (omega arith) in
              (error, bind_of_ok w₁ (λ _. w₂) (h₁.run out room p fits) ∙ failed)
          | inr e ↦
              let (error, failed) = h₁.short out room p (ground arith) in
              (error, bind_of_err w₁ (λ _. w₂) failed)
        ];
  }

  pub Emits-nothing : Emits v (pure tt) []
  Emits-nothing = record {
    run = λ out room p fits. at_eq v (sym (append-nil out)) (omega arith) (omega arith);
    short = λ out room p lacks. absurd (omega arith);
  }

  pub Emits-label :
      (msg : String) (w : Exec Writer (Unit {0})) {bytes : Bytes}
      → Emits v w bytes
      → Emits v (label msg w) bytes
  Emits-label msg w h = record {
    run = λ out room p fits. label_of_ok msg w (h.run out room p fits);
    short = λ out room p lacks.
        let (error, failed) = h.short out room p lacks in
        (wrap msg error, label_of_err msg w failed);
  }

  pub Emits-write_buf : (bytes : Bytes) → Emits v (write_buf bytes) bytes
  unfolding write_buf
  Emits-write_buf bytes = record {
    run = λ out room p fits. rw (le→leb _ _ fits);
    short = λ out room p lacks. (short_write, rw (lt→leb_false _ _ lacks));
  }

  pub Emits-write_byte : (b : ℕ) → Emits v (write_byte b) (b ∷ [])
  unfolding write_byte
  Emits-write_byte b = Emits-label _ _ (Emits-write_buf (b ∷ []))

  -- The rounds write the four bytes of the number, also of the least int32.
  Emits-write_magnitude : (x : ℕ) → IsWord32 x → Emits v (write_magnitude x) (magnitude_bytes x)
  unfolding write_magnitude write_rounds
  Emits-write_magnitude x h =
      let rounds : Emits v (write_rounds 4 x) _ =
        Emits-then _ _ (Emits-label _ _ (Emits-write_byte (x % 256))) (
          Emits-then _ _ (Emits-label _ _ (Emits-write_byte (shr8_int32 x % 256))) (
            Emits-then _ _ (Emits-label _ _ (Emits-write_byte (shr8_int32 (shr8_int32 x) % 256))) (
              Emits-then _ _
                (Emits-label _ _ (Emits-write_byte (shr8_int32 (shr8_int32 (shr8_int32 x)) % 256)))
                Emits-nothing))) in
      record { run = rw (← shr8_bytes x h) rounds.run; short = rounds.short }

  pub Emits-write_int : (x : ℕ) → IsWord32 x → Emits v (write_int x) (int_bytes x)
  unfolding write_int
  Emits-write_int x h = elim (Bool-cases (is_neg32 x)) [
    | inl e ↦ rw e (
        Emits-then _ _ (Emits-label _ _ (Emits-write_byte 1))
          (Emits-write_magnitude (neg32 x) (omega arith)))
    | inr e ↦
        rw e (Emits-then _ _ (Emits-label _ _ (Emits-write_byte 0)) (Emits-write_magnitude x h))
  ]

  pub Emits-write_str : (s : Option Bytes) → FitsStr s → Emits v (write_str s) (str_bytes s)
  unfolding write_str
  Emits-write_str none h = Emits-label _ _ (Emits-write_int (2 ^ 32 - 1) (omega arith))
  Emits-write_str (some s) h =
      let same : length s % 2 ^ 32 ≡ length s = omega arith in
      rw same (
        Emits-then _ _ (Emits-label _ _ (Emits-write_int (length s) (omega arith)))
          (Emits-label _ _ (Emits-write_buf s)))
