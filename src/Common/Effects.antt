-- ===== src/Common/Effects.antt =====
-- Go's ways to end a call, and stateful code that may fail.
use Prim.Native.Nat.{ℕ}
use Prim.Native.String.{String}
use mathlib.Core.Path.{◌≡◌}

-- The errors of the modelled code; `wrap` is `fmt.Errorf` with a `%w` or `%s` operand.
pub data Error : Type 0 where
  unexpected_eof short_write : Error
  unsupported_int_size zero_version : Error
  no_magic_string nil_pointer entries_nil header_nil : Error
  unsupported_version : ℕ → ℕ → Error
  int_size_check : ℕ → Error
  unsupported_format : ℕ → Error
  entry_id_out_of_range : ℕ → Error
  invalid_syntax out_of_range : Error
  wrong_limits min_greater_max unknown_hash no_hash_size unknown_gender : Error
  file_not_found dump_not_found bad_date bad_metadata : Error
  generator_too_small : ℕ → ℕ → Error
  index_out_of_range tuple_size_mismatch : Error
  wrap : String → Error → Error

-- `panicked` is a Go panic. `stuck` is no Go value: a loop ran out of its fuel.
pub data Result {ℓ} (A : Type ℓ) : Type ℓ where
  ok : A → Result A
  err : Error → Result A
  panicked stuck : Result A

-- The rest of a function behind a call that may fail.
abbrev pub on_ok {ℓ κ} : {A : Type ℓ} {B : Type κ} → Result A → (A → Result B) → Result B
on_ok (ok a) k = k a
on_ok (err e) k = err e
on_ok panicked k = panicked
on_ok stuck k = stuck

-- A method that mutates its receiver and may fail. The callers of the modelled methods drop the
-- receiver after an error, so no state is kept beside one.
abbrev pub Exec : Type 0 → Type 0 → Type 0
Exec S A = S → Result (A × S)

module _ {S A : Type 0} where
  abbrev pub pure : A → Exec S A
  pure a s = ok (a, s)

  abbrev pub raise : Error → Exec S A
  raise e s = err e

  abbrev pub panic : Exec S A
  panic s = panicked

  abbrev pub out_of_fuel : Exec S A
  out_of_fuel s = stuck

  -- A result with no state.
  abbrev pub lift : Result A → Exec S A
  lift (ok a) s = ok (a, s)
  lift (err e) s = err e
  lift panicked s = panicked
  lift stuck s = stuck

  -- `if err != nil { return fmt.Errorf(msg, err) }`
  abbrev wrapped : String → Result (A × S) → Result (A × S)
  wrapped msg (ok r) = ok r
  wrapped msg (err e) = err (wrap msg e)
  wrapped msg panicked = panicked
  wrapped msg stuck = stuck

  abbrev pub label : String → Exec S A → Exec S A
  label msg m s = wrapped msg (m s)

abbrev pub modify : {S : Type 0} → (S → S) → Exec S (Unit {0})
modify f s = ok (tt, f s)

abbrev pub get_state : {S : Type 0} → Exec S S
get_state s = ok (s, s)

module _ {S A B : Type 0} where
  infixl 5 ◌>>=◌ ◌>>◌
  abbrev continue : Result (A × S) → (A → Exec S B) → Result (B × S)
  continue (ok (a, s)) f = f a s
  continue (err e) f = err e
  continue panicked f = panicked
  continue stuck f = stuck

  abbrev pub ◌>>=◌ : Exec S A → (A → Exec S B) → Exec S B
  ◌>>=◌ m f s = continue (m s) f

  abbrev pub ◌>>◌ : Exec S A → Exec S B → Exec S B
  m >> n = m >>= λ _. n

  -- A step that returns hands its result and state to the rest.
  pub bind_of_ok :
      (m : Exec S A) (f : A → Exec S B) {s s' : S} {a : A} → m s ≡ ok (a, s') → (m >>= f) s ≡ f a s'
  bind_of_ok m f e = rw e

pub label_of_ok :
    {S A : Type 0} (msg : String) (m : Exec S A) {s s' : S} {a : A}
    → m s ≡ ok (a, s')
    → label msg m s ≡ ok (a, s')
label_of_ok msg m e = rw e

module _ {S A B : Type 0} where
  pub bind_of_err :
      (m : Exec S A) (f : A → Exec S B) {s : S} {e : Error} → m s ≡ err e → (m >>= f) s ≡ err e
  bind_of_err m f h = rw h

pub label_of_err :
    {S A : Type 0} (msg : String) (m : Exec S A) {s : S} {e : Error}
    → m s ≡ err e
    → label msg m s ≡ err (wrap msg e)
label_of_err msg m h = rw h
