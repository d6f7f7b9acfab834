-- ===== src/Toc/RoundTrip.antt =====
-- A writer's function and a reader's function that undo one another, with the rules that follow
-- the `do` blocks of the two step by step.
pub mod Values
pub mod Entries
pub mod Header
pub mod Whole
use greenmask.Common.{
  ℕ, Bytes, [], ◌∷◌, ◌++◌, append-nil, ◌≡◌, ◌∙◌, String, Bool, true, false, inl, inr, Bool-cases,
  Exec, pure, label, ◌>>=◌, ◌>>◌, ok, bind_of_ok, if◌then◌else◌, leb,
}
use greenmask.Toc.Version.{backup_version}
use greenmask.Toc.Writer
use greenmask.Toc.Writer.{Writer}
use greenmask.Toc.Writer.Emits.{Emits, Emits-then, Emits-nothing, Emits-label}
use greenmask.Toc.Reader
use greenmask.Toc.Reader.{Reader}
use greenmask.Toc.Reader.Reads.{Context, at, ready, Reads, Reads-bind, Reads-pure, Reads-label}

-- In an archive of version `v`: what `w` appends, `r` reads back as `x`, and nothing else.
pub record Link {A : Type 0} (v : ℕ) (c : Context) (w : Exec Writer (Unit {0})) (r : Exec Reader A)
    (x : A) (c' : Context) : Type 0 where
  pub bytes : Bytes
  pub emits : Emits v w bytes
  pub reads : Reads c r bytes x c'

module _ {A B : Type 0} {v : ℕ} {c c' c'' : Context} where
  pub Link-then :
      {w₁ w₂ : Exec Writer (Unit {0})} {m : Exec Reader A} (k : A → Exec Reader B) {a : A} {y : B}
      → Link v c w₁ m a c'
      → Link v c' w₂ (k a) y c''
      → Link v c (w₁ >> w₂) (m >>= k) y c''
  Link-then {w₁} {w₂} {m} k h₁ h₂ = record {
    bytes = h₁.bytes ++ h₂.bytes;
    emits = Emits-then w₁ w₂ h₁.emits h₂.emits;
    reads = Reads-bind m k h₁.reads h₂.reads;
  }

  -- The reader makes a step that takes nothing off the input.
  pub Link-silent :
      {w : Exec Writer (Unit {0})} {m : Exec Reader A} (k : A → Exec Reader B) {a : A} {y : B}
      → Reads c m [] a c'
      → Link v c' w (k a) y c''
      → Link v c w (m >>= k) y c''
  Link-silent {w} {m} k h₁ h₂ = record {
    bytes = h₂.bytes;
    emits = h₂.emits;
    reads = Reads-bind m k h₁ h₂.reads;
  }

  -- The last value of a block.
  pub Link-last :
      {w : Exec Writer (Unit {0})} {m : Exec Reader A} (k : A → Exec Reader B) {a : A} {y : B}
      → Link v c w m a c'
      → Reads c' (k a) [] y c''
      → Link v c w (m >>= k) y c''
  Link-last {w} {m} k h₁ h₂ = record {
    bytes = h₁.bytes;
    emits = h₁.emits;
    reads = rw append-nil at (Reads-bind m k h₁.reads h₂);
  }

module _ {A : Type 0} {v : ℕ} {c c' : Context} where
  pub Link-label :
      {w : Exec Writer (Unit {0})} {r : Exec Reader A} {x : A} (a b : String)
      → Link v c w r x c'
      → Link v c (label a w) (label b r) x c'
  Link-label {w} {r} a b h = record {
    bytes = h.bytes;
    emits = Emits-label a w h.emits;
    reads = Reads-label b r h.reads;
  }

  pub Link-label_writer :
      {w : Exec Writer (Unit {0})} {r : Exec Reader A} {x : A} (a : String)
      → Link v c w r x c'
      → Link v c (label a w) r x c'
  Link-label_writer {w} a h = record {
    bytes = h.bytes;
    emits = Emits-label a w h.emits;
    reads = h.reads;
  }

module _ {A : Type 0} {v : ℕ} {c c' : Context} where
  pub Link-label_reader :
      {w : Exec Writer (Unit {0})} {r : Exec Reader A} {x : A} (b : String)
      → Link v c w r x c'
      → Link v c w (label b r) x c'
  Link-label_reader {r} b h = record {
    bytes = h.bytes;
    emits = h.emits;
    reads = Reads-label b r h.reads;
  }

module _ {A : Type 0} {v : ℕ} {c : Context} where
  pub Link-nothing : {r : Exec Reader A} {x : A} → Reads c r [] x c → Link v c (pure tt) r x c
  Link-nothing h = record { bytes = []; emits = Emits-nothing; reads = h }

  -- A value that both sides have under one test.
  pub Link-if :
      {w : Exec Writer (Unit {0})} {r d : Exec Reader A} {x y : A} (b : Bool)
      → Link v c w r x c
      → Reads c d [] y c
      → Link v c (if b then w else pure tt) (if b then r else d) (if b then x else y) c
  Link-if true h₁ h₂ = h₁
  Link-if false h₁ h₂ = Link-nothing h₂

module _ {A : Type 0} {v m : ℕ} where
  -- The same under a test of the version in the two states.
  pub Link-since :
      {w : Exec Writer (Unit {0})} {r d : Exec Reader A} {x y : A} (minor : ℕ)
      → Link v (ready v m) w r x (ready v m)
      → (leb (backup_version minor) v ≡ false → Reads (ready v m) d [] y (ready v m))
      → Link v
          (ready v m)
          (Writer.since minor w)
          (Reader.since minor r d)
          (if leb (backup_version minor) v then x else y)
          (ready v m)
  unfolding Writer.since Reader.since
  Link-since minor h₁ h₂ = elim (Bool-cases (leb (backup_version minor) v)) [
    | inl e ↦ rw e (record {
      bytes = h₁.bytes;
      emits = record {
        run = λ out room p fits. rw e (h₁.emits.run out room p fits);
        short = λ out room p lacks. rw e (h₁.emits.short out room p lacks);
      };
      reads = record { run = λ rest p. rw e (h₁.reads.run rest p) };
    })
    | inr e ↦ rw e (record {
      bytes = [];
      emits = record {
        run = λ out room p fits. rw e ((Emits-nothing {v = v}).run out room p fits);
        short = λ out room p lacks. rw e ((Emits-nothing {v = v}).short out room p lacks);
      };
      reads = record { run = λ rest p. rw e ((h₂ e).run rest p) };
    })
  ]
