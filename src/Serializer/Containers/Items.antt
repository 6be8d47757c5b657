-- ===== src/Serializer/Containers/Items.antt =====
-- The loops over the items of a collection: `for el in self { el.write(writer) }`, and
-- `for _ in 0..count { values.push(T::read(reader)?) }`.
use blockchain_xelis.Prelude.{
  ℕ, zero, suc, ◌+◌, ◌≡◌, refl, ap, List, [], ◌∷◌, ◌++◌, All, All-append, length, length-append,
  arith,
}
use mathlib.Core.List.{append-nil}
use blockchain_xelis.Serializer.Reader.{Read, ◌>>=◌, pure}
use blockchain_xelis.Serializer.Reader.Triples.{
  Reads, Reads-eq, Reads-pure, Reads-bind, Yields, Yields-pure, Yields-bind, IsByte,
}
use blockchain_xelis.Serializer.Trait.{Serializer, IsLawful, IsStrict}

module _ {ℓ} {A : Type ℓ} (s : Serializer A) where
  unfoldable pub write_items : List A → List ℕ
  write_items [] = []
  write_items (el ∷ els) = s.write el ++ write_items els

  unfoldable pub read_items : ℕ → Read (List A)
  read_items zero = pure []
  read_items (suc n) = do el ← s.read; els ← read_items n; pure (el ∷ els)

  -- `self.iter().map(|el| el.size()).sum()`
  unfoldable pub size_items : List A → ℕ
  size_items [] = 0
  size_items (el ∷ els) = s.size el + size_items els

module _ {ℓ κ} {A : Type ℓ} {s : Serializer A} {Valid : A → Type κ} where
  pub Reads-items :
      IsLawful s Valid
      → (els : List A) → All Valid els
      → Reads (read_items s (length els)) (write_items s els) els
  unfolding read_items write_items
  Reads-items l [] v = Reads-pure []
  Reads-items l (el ∷ els) v =
      Reads-bind _ (l.reads el v.0)
        (Reads-eq (Reads-bind _ (Reads-items l els v.1) (Reads-pure (el ∷ els))) (append-nil _))

  pub Yields-items :
      IsStrict s Valid
      → (n : ℕ)
      → Yields
          (read_items s n)
          (λ els xs. (length els ≡ n) × All Valid els × (xs ≡ write_items s els))
  unfolding read_items write_items
  Yields-items st zero = Yields-pure [] (refl, tt, refl)
  Yields-items st (suc n) = Yields-bind st.yields λ el xs h.
      Yields-bind (Yields-items st n)
        λ els ys k. Yields-pure (el ∷ els) (ap suc k.0, (h.0, k.1), simp (h.1, k.2, append-nil))

  pub size-items :
      IsLawful s Valid
      → (els : List A) → All Valid els
      → size_items s els ≡ length (write_items s els)
  unfolding size_items write_items
  size-items l [] v = refl
  size-items l (el ∷ els) v = omega (
    arith,
    length-append {0} (s.write el) (write_items s els),
    l.sizes el v.0,
    size-items l els v.1,
  )

  pub All-items : IsLawful s Valid → (els : List A) → All Valid els → All IsByte (write_items s els)
  unfolding write_items
  All-items l [] v = tt
  All-items l (el ∷ els) v =
      All-append IsByte (s.write el) _ (l.writes_bytes el v.0) (All-items l els v.1)
