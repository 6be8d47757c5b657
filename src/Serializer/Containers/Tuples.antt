-- ===== src/Serializer/Containers/Tuples.antt =====
-- Pairs and triples (serializer/defaults.rs): the parts, one after the other.
use blockchain_xelis.Prelude.{ℕ, ◌+◌, List, ◌++◌, All-append, length-append, arith}
use mathlib.Core.List.{append-nil}
use blockchain_xelis.Serializer.Reader.{Read, ◌>>=◌, pure}
use blockchain_xelis.Serializer.Reader.Triples.{
  Reads-eq, Reads-pure, Reads-bind, Yields-pure, Yields-bind, IsByte,
}
use blockchain_xelis.Serializer.Trait.{Serializer, IsLawful, IsStrict}

module _ {ℓ κ} {L : Type ℓ} {R : Type κ} (l : Serializer L) (r : Serializer R) where
  unfoldable pub write_pair : L × R → List ℕ
  write_pair p = l.write p.0 ++ r.write p.1

  unfoldable pub read_pair : Read (L × R)
  read_pair = do a ← l.read; b ← r.read; pure (a, b)

  unfoldable pub size_pair : L × R → ℕ
  size_pair p = l.size p.0 + r.size p.1

  abbrev pub pair : Serializer (L × R)
  pair = record { write = write_pair; read = read_pair; size = size_pair }

abbrev pub Both {ℓ κ μ ν} :
    {L : Type ℓ} {R : Type κ} → (L → Type μ) → (R → Type ν) → L × R → Type (μ ⊔ ν)
Both P Q p = P p.0 × Q p.1

module _ {ℓ κ μ ν} {L : Type ℓ} {R : Type κ} {l : Serializer L} {r : Serializer R} {P : L → Type μ}
    {Q : R → Type ν} where
  pub pair-IsLawful : IsLawful l P → IsLawful r Q → IsLawful (pair l r) (Both P Q)
  unfolding write_pair read_pair size_pair
  pair-IsLawful hl hr = record {
    reads = λ p v.
        Reads-bind _ (hl.reads p.0 v.0)
          (Reads-eq (Reads-bind _ (hr.reads p.1 v.1) (Reads-pure p)) (append-nil _));
    sizes = λ p v.
        omega (
          arith,
          length-append {0} (l.write p.0) (r.write p.1),
          hl.sizes p.0 v.0,
          hr.sizes p.1 v.1,
        );
    writes_bytes = λ p v.
        All-append IsByte (l.write p.0) _ (hl.writes_bytes p.0 v.0) (hr.writes_bytes p.1 v.1);
  }

  pub pair-IsStrict : IsStrict l P → IsStrict r Q → IsStrict (pair l r) (Both P Q)
  unfolding write_pair read_pair
  pair-IsStrict hl hr = record {
    yields = Yields-bind hl.yields λ a xs h.
        Yields-bind hr.yields
          λ b ys k. Yields-pure (a, b) ((h.0, k.0), simp (h.1, k.1, append-nil));
  }

module _ {ℓ κ μ} {A : Type ℓ} {B : Type κ} {C : Type μ} (a : Serializer A) (b : Serializer B)
    (c : Serializer C) where
  unfoldable pub write_triple : A × B × C → List ℕ
  write_triple t = a.write t.0 ++ (b.write t.1 ++ c.write t.2)

  unfoldable pub read_triple : Read (A × B × C)
  read_triple = do x ← a.read; y ← b.read; z ← c.read; pure (x, y, z)

  unfoldable pub size_triple : A × B × C → ℕ
  size_triple t = a.size t.0 + b.size t.1 + c.size t.2

  abbrev pub triple : Serializer (A × B × C)
  triple = record { write = write_triple; read = read_triple; size = size_triple }
