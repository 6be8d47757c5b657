-- ===== src/Serializer/Containers/Optional.antt =====
-- `Option<T>` (serializer/defaults.rs)
use blockchain_xelis.Prelude.{
  ℕ, ◌+◌, refl, Bool, true, false, Option, none, some, List, ◌++◌, arith, if◌then◌else◌,
}
use mathlib.Core.List.{append-nil}
use blockchain_xelis.Serializer.Reader.{Read, ◌>>=◌, pure, read_bool}
use blockchain_xelis.Serializer.Reader.Triples.{
  Reads, Reads-eq, Reads-pure, Reads-bind, Yields-pure, Yields-bind, Yields-if,
}
use blockchain_xelis.Serializer.Trait.{Serializer, IsLawful, IsStrict}
use blockchain_xelis.Serializer.Numbers.{write_bool, Reads-bool, Yields-bool}

module _ {ℓ} {A : Type ℓ} (s : Serializer A) where
  unfoldable pub write_option : Option A → List ℕ
  write_option none = write_bool false
  write_option (some value) = write_bool true ++ s.write value

  unfoldable pub read_present : Bool → Read (Option A)
  read_present present = if present then (do value ← s.read; pure (some value)) else pure none

  unfoldable pub read_option : Read (Option A)
  read_option = do present ← read_bool; read_present present

  unfoldable pub size_option : Option A → ℕ
  size_option none = 1
  size_option (some value) = 1 + s.size value

  abbrev pub option : Serializer (Option A)
  option = record { write = write_option; read = read_option; size = size_option }

  abbrev pub OnSome {κ} : (A → Type κ) → Option A → Type κ
  OnSome P none = Unit
  OnSome P (some a) = P a

module _ {ℓ κ} {A : Type ℓ} {s : Serializer A} {Valid : A → Type κ} where
  Reads-option :
      IsLawful s Valid
      → (o : Option A) → OnSome s Valid o
      → Reads (read_option s) (write_option s o) o
  unfolding read_option write_option
  Reads-option l none v =
      Reads-bind (read_present s) (Reads-bool false) (unfold read_present in Reads-pure none)
  Reads-option l (some a) v = Reads-bind (read_present s) (Reads-bool true) (
      unfold read_present in
      Reads-eq (Reads-bind _ (l.reads a v) (Reads-pure (some a))) (append-nil _))

  pub option-IsLawful : IsLawful s Valid → IsLawful (option s) (OnSome s Valid)
  option-IsLawful l = record {
    reads = Reads-option l;
    sizes = elim [
      | none ↦ λ _. unfold size_option write_option in refl
      | some a ↦ λ v. unfold size_option write_option in omega (arith, l.sizes a v)
    ];
    writes_bytes = elim [
      | none ↦ λ _. unfold write_option in ground arith
      | some a ↦ λ v. unfold write_option in ground (arith, l.writes_bytes a v)
    ];
  }

  pub option-IsStrict : IsStrict s Valid → IsStrict (option s) (OnSome s Valid)
  unfolding read_option write_option
  option-IsStrict st = record {
    yields = Yields-bind Yields-bool λ b xs h.
        unfold read_present in
        Yields-if b _ _
          (λ t.
            Yields-bind st.yields
              (λ a ys k. Yields-pure (some a) (k.0, simp (h, t, k.1, append-nil))))
          (λ t. Yields-pure none (tt, simp (h, t)));
  }
