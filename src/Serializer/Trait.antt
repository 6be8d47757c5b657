-- ===== src/Serializer/Trait.antt =====
-- xelis_common/src/serializer/mod.rs: the trait `Serializer`, and what a lawful instance is.
-- `write` is modelled by the bytes that it appends to the writer's buffer.
use blockchain_xelis.Prelude.{
  ℕ, ◌≡◌, refl, ap, ◌∙◌, List, ◌++◌, Result, ok, err, All, length, arith,
}
use blockchain_xelis.Serializer.Reader.{Reader, Read, ReaderError, new}
use blockchain_xelis.Serializer.Reader.Triples.{Reads, Yields, IsByte, remaining}

pub record Serializer {ℓ} (A : Type ℓ) : Type ℓ where
  pub write : A → List ℕ
  pub read : Read A
  pub size : A → ℕ

module _ {ℓ} {A : Type ℓ} (s : Serializer A) where
  -- `to_bytes`
  unfoldable pub to_bytes : A → List ℕ
  to_bytes a = s.write a

  -- `from_bytes`: what follows the value is ignored.
  unfoldable pub from_bytes : List ℕ → Result ReaderError A
  unfolding new
  from_bytes bytes = elim (s.read (new bytes)) [ ok (a, r) ↦ ok a | err e ↦ err e ]

-- The laws of an instance, on the values that satisfy `Valid`.
pub record IsLawful {ℓ κ} {A : Type ℓ} (s : Serializer A) (Valid : A → Type κ) : Type (ℓ ⊔ κ) where
  -- Reading takes what was written, wherever it stands, and returns the value.
  pub reads : (a : A) → Valid a → Reads s.read (s.write a) a
  -- `size` is the number of bytes that are written.
  pub sizes : (a : A) → Valid a → s.size a ≡ length (s.write a)
  pub writes_bytes : (a : A) → Valid a → All IsByte (s.write a)

-- Only valid values are read, each from its own serialization: no second encoding is accepted.
pub record IsStrict {ℓ κ} {A : Type ℓ} (s : Serializer A) (Valid : A → Type κ) : Type (ℓ ⊔ κ) where
  pub yields : Yields s.read (λ a xs. Valid a × (xs ≡ s.write a))

read_ok {ℓ} :
    {A : Type ℓ} (s : Serializer A) (bytes : List ℕ) {a : A}
    → from_bytes s bytes ≡ ok a
    → (r : Reader) × (s.read (new bytes) ≡ ok (a, r))
unfolding from_bytes
read_ok {A} s bytes {a} h = split (s.read (new bytes)) refl h
  where
    split :
        (o : Result ReaderError (A × Reader))
        → s.read (new bytes) ≡ o
        → elim o [ ok (b, r) ↦ ok b | err e ↦ err e ] ≡ ok a
        → (r : Reader) × (s.read (new bytes) ≡ ok (a, r))
    split (ok (b, r)) e g = (r, e ∙ cc)
    split (err x) e g = cc

-- What reads as a value at the front of some bytes is that value to `from_bytes`.
pub from_bytes-Reads {ℓ} :
    {A : Type ℓ} (s : Serializer A) (xs : List ℕ) (a : A) (rest : List ℕ)
    → Reads s.read xs a
    → from_bytes s (xs ++ rest) ≡ ok a
unfolding from_bytes
from_bytes-Reads s xs a rest reads =
    rw (reads.at (new (xs ++ rest)) rest (unfold new in refl), from_bytes) refl

module _ {ℓ κ} {A : Type ℓ} {s : Serializer A} {Valid : A → Type κ} where
  -- A valid value is read back, also if other bytes follow.
  pub from-to_bytes :
      IsLawful s Valid
      → (a : A) (rest : List ℕ) → Valid a
      → from_bytes s (to_bytes s a ++ rest) ≡ ok a
  unfolding to_bytes
  from-to_bytes l a rest v = from_bytes-Reads s (s.write a) a rest (l.reads a v)

  -- Whatever is accepted begins with the serialization of the valid value that is returned.
  pub to-from_bytes :
      IsStrict s Valid
      → (bytes : List ℕ) (a : A) → All IsByte bytes
      → from_bytes s bytes ≡ ok a
      → (rest : List ℕ) × Valid a × (bytes ≡ to_bytes s a ++ rest)
  unfolding to_bytes
  to-from_bytes st bytes a h e =
      let (r, e') = read_ok s bytes e in
      let (xs, (v, w), took, _) =
        st.yields.at (new bytes) r a (unfold new in record { within = omega arith; all_bytes = h })
          e' in
      (remaining r, v, unfold new in (took ∙ ap (λ ys. ys ++ remaining r) w))

  -- No serialization is a prefix of another value's.
  pub write_injective :
      IsLawful s Valid
      → (a b : A) (xs ys : List ℕ) → Valid a
      → Valid b
      → to_bytes s a ++ xs ≡ to_bytes s b ++ ys
      → a ≡ b
  write_injective l a b xs ys va vb e =
      let p = from-to_bytes l a xs va in
      let q = from-to_bytes l b ys vb in cc (p, q, ap (from_bytes s) e)
