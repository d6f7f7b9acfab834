-- ===== src/Toc/RoundTrip/Values.antt =====
-- The values of an entry: integers, strings, object ids, and the list of dependencies.
use greenmask.Common.{
  ℕ, zero, suc, ◌<◌, ◌≡◌, Bytes, codes, Option, none, some, List, [], ◌∷◌, ◌++◌, append_assoc,
  append-nil, String, pure, lift, label, Result, ok, length, length-append, All, IsWord32,
  format_uint, format_int32, parse_int32, parse_uint32-format_uint, parse_int32-format_int32,
  length-format_uint, length-format_int32, arith,
}
use greenmask.Toc.Encoding.{int_bytes, str_bytes, FitsStr}
use greenmask.Toc.Writer.{write_int, write_str}
use greenmask.Toc.Writer.Emits.{Emits, Emits-then, Emits-label, Emits-write_int, Emits-write_str}
use greenmask.Toc.Writer.Entries.{write_dependencies}
use greenmask.Toc.Reader.{read_int, read_str}
use greenmask.Toc.Reader.Reads.{
  ready, Reads, Reads-bind, Reads-pure, Reads-label, Reads-read_int, Reads-read_str,
}
use greenmask.Toc.Reader.Entries.{
  required, read_oid, read_with_oids, next, read_dependencies, read_all_dependencies,
}
use greenmask.Toc.RoundTrip.{Link, Link-last, Link-label}

pub Reads-lift :
    {A : Type 0} {v m : ℕ} (msg : String) {r : Result A} {x : A}
    → r ≡ ok x
    → Reads (ready v m) (label msg (lift r)) [] x (ready v m)
Reads-lift msg {r} {x} e = rw e (Reads-label msg (pure x) (Reads-pure x))

module _ (v m : ℕ) (late : 65536 < v) where
  pub Link-int : (x : ℕ) → IsWord32 x → Link v (ready v m) (write_int x) read_int x (ready v m)
  Link-int x h = record {
    bytes = int_bytes x;
    emits = Emits-write_int x h;
    reads = Reads-read_int v m late x h;
  }

  pub Link-str :
      (s : Option Bytes) → FitsStr s → Link v (ready v m) (write_str s) read_str s (ready v m)
  Link-str s h = record {
    bytes = str_bytes s;
    emits = Emits-write_str s h;
    reads = Reads-read_str v m late s h;
  }

  pub Link-oid :
      (n : ℕ) (msg : String)
      → IsWord32 n
      → Link v (ready v m) (label msg (write_str (some (format_uint n)))) read_oid n (ready v m)
  unfolding read_oid required
  Link-oid n msg h =
      Link-last _
        (Link-label _ _ (Link-str (some (format_uint n)) (omega (arith, length-format_uint n))))
        (Reads-lift _ (parse_uint32-format_uint n h))

  pub Link-with_oids :
      (msg : String)
      → Link v
          (ready v m)
          (label msg (write_str (some (codes "false"))))
          read_with_oids
          tt
          (ready v m)
  unfolding read_with_oids required
  Link-with_oids msg =
      Link-last _ (Link-label _ _ (Link-str (some (codes "false")) (omega arith))) (Reads-pure tt)

length-int_bytes : (x : ℕ) → length (int_bytes x) ≡ 5
length-int_bytes x = ground arith

-- The bytes of a list of dependencies, up to its terminator.
dep_bytes : List ℕ → Bytes
dep_bytes [] = str_bytes none
dep_bytes (d ∷ deps) = str_bytes (some (format_int32 d)) ++ dep_bytes deps

length-dep_bytes : (deps : List ℕ) → length deps < length (dep_bytes deps)
unfolding dep_bytes
length-dep_bytes [] = omega arith
length-dep_bytes (d ∷ deps) = omega (
  arith,
  length-append (str_bytes (some (format_int32 d))) (dep_bytes deps),
  length-append (int_bytes (length (format_int32 d))) (format_int32 d),
  length-int_bytes (length (format_int32 d)),
  length-dep_bytes deps,
)

Emits-dependencies : (v : ℕ) (deps : List ℕ) → Emits v (write_dependencies deps) (dep_bytes deps)
unfolding write_dependencies dep_bytes
Emits-dependencies v [] = Emits-label _ _ (Emits-write_str none tt)
Emits-dependencies v (d ∷ deps) =
    Emits-then _ _
      (Emits-label _ _
        (Emits-write_str (some (format_int32 d)) (omega (arith, length-format_int32 d))))
      (Emits-dependencies v deps)

module _ (v m : ℕ) (late : 65536 < v) where
  Reads-dependencies :
      (fuel : ℕ) (deps done : List ℕ)
      → length deps < fuel
      → All IsWord32 deps
      → Reads (ready v m) (read_dependencies fuel done) (dep_bytes deps) (done ++ deps) (ready v m)
  unfolding read_dependencies dep_bytes
  Reads-dependencies zero deps done h words = absurd (omega arith)
  Reads-dependencies (suc fuel) [] done h words = rw append-nil (
      rw append-nil at (
        Reads-bind {c = ready v m} _ (next (read_dependencies fuel) done)
          (Reads-label "cannot read CatalogId" read_str (Reads-read_str v m late none tt))
          (Reads-pure done)))
  Reads-dependencies (suc fuel) (d ∷ deps) done h (word, words) =
      Reads-bind _ (next (read_dependencies fuel) done)
        (Reads-label _ _
          (Reads-read_str v m late (some (format_int32 d)) (omega (arith, length-format_int32 d))))
        (rw (← append_assoc done (d ∷ []) deps) (
          Reads-bind {c = ready v m}
            (label "unable to parse dependency int32 value" (lift (parse_int32 (format_int32 d))))
            (λ val. read_dependencies fuel (done ++ val ∷ []))
            (Reads-lift _ (parse_int32-format_int32 d word))
            (Reads-dependencies fuel deps (done ++ d ∷ []) (omega arith) words)))

  pub Link-dependencies :
      (deps : List ℕ)
      → All IsWord32 deps
      → Link v (ready v m) (write_dependencies deps) read_all_dependencies deps (ready v m)
  unfolding read_all_dependencies
  Link-dependencies deps words = record {
    bytes = dep_bytes deps;
    emits = Emits-dependencies v deps;
    reads = record {
      run = λ rest p.
          (Reads-dependencies (suc (length (dep_bytes deps ++ rest))) deps []
              (omega (arith, length-dep_bytes deps, length-append (dep_bytes deps) rest)) words).run
            rest p;
    };
  }
