-- ===== src/Serializer/Containers/Unique.antt =====
-- The loop that reads distinct items (`if !set.insert(value) { return Err(..) }`), and `IndexSet<T>`
-- of serializer/defaults.rs. A set is the list of its items in the order of insertion; `same` is the
-- type's `PartialEq`.
use blockchain_xelis.Prelude.{
  ℕ, zero, suc, ◌≡◌, refl, ap, sym, ◌∙◌, Bool, false, List, [], ◌∷◌, ◌++◌, All, length, any, arith,
  if◌then◌else◌,
}
use mathlib.Core.List.{append-nil, append_assoc}
use blockchain_xelis.Serializer.Reader.{Read, ReaderError, ◌>>=◌, pure, throw}
use blockchain_xelis.Serializer.Reader.Triples.{
  Reads, Reads-value, Reads-pure, Reads-bind, Yields, Yields-pure, Yields-bind, Yields-if,
  Yields-throw, Yields-imp,
}
use blockchain_xelis.Serializer.Trait.{Serializer, IsLawful, IsStrict}
use blockchain_xelis.Serializer.Containers.Items.{write_items}

module _ {ℓ} {A : Type ℓ} (same : A → A → Bool) where
  -- `contains(value)`
  abbrev pub contains : A → List A → Bool
  contains value seen = any (same value) seen

  -- No item is the same as an earlier one.
  abbrev pub IsDistinct : List A → Type 0
  IsDistinct [] = Unit
  IsDistinct (x ∷ xs) = All (λ y. same y x ≡ false) xs × IsDistinct xs

  abbrev pub AreNew : List A → List A → Type 0
  AreNew seen xs = All (λ y. contains y seen ≡ false) xs

  any-append_one :
      (test : A → Bool) (seen : List A) (x : A)
      → any test seen ≡ false
      → test x ≡ false
      → any test (seen ++ x ∷ []) ≡ false
  any-append_one test [] x h k = rw k
  any-append_one test (y ∷ seen) x h k = ground (arith, any-append_one test seen x)

  any-append_parts :
      (test : A → Bool) (seen : List A) (x : A)
      → any test (seen ++ x ∷ []) ≡ false
      → (any test seen ≡ false) × (test x ≡ false)
  any-append_parts test [] x h = ground arith
  any-append_parts test (y ∷ seen) x h = ground (arith, any-append_parts test seen x)

  AreNew-snoc :
      (seen : List A) (x : A) (xs : List A)
      → AreNew seen xs
      → All (λ y. same y x ≡ false) xs
      → AreNew (seen ++ x ∷ []) xs
  AreNew-snoc seen x [] h k = tt
  AreNew-snoc seen x (y ∷ ys) h k =
      (any-append_one (same y) seen x h.0 k.0, AreNew-snoc seen x ys h.1 k.1)

  AreNew-parts :
      (seen : List A) (x : A) (xs : List A)
      → AreNew (seen ++ x ∷ []) xs
      → AreNew seen xs × All (λ y. same y x ≡ false) xs
  AreNew-parts seen x [] h = (tt, tt)
  AreNew-parts seen x (y ∷ ys) h =
      let (p, q) = any-append_parts (same y) seen x h.0 in
      let (ps, qs) = AreNew-parts seen x ys h.1 in ((p, ps), (q, qs))

module _ {ℓ} {A : Type ℓ} (same : A → A → Bool) (s : Serializer A) (duplicate : ReaderError) where
  -- `count` more items, behind those in `seen`; a repeated one is refused.
  unfoldable pub read_unique : ℕ → List A → Read (List A)
  read_unique zero seen = pure seen
  read_unique (suc count) seen = do
    value ← s.read
    if contains same value seen then throw duplicate else read_unique count (seen ++ value ∷ [])

-- Nothing is in the empty set.
pub AreNew-nil {ℓ} : {A : Type ℓ} (same : A → A → Bool) (els : List A) → AreNew same [] els
AreNew-nil same [] = tt
AreNew-nil same (el ∷ els) = (refl, AreNew-nil same els)

-- What a loop that began with `seen` read and returned.
abbrev pub Appended {ℓ κ} :
    {A : Type ℓ}
    → (A → A → Bool)
    → Serializer A
    → (A → Type κ)
    → List A
    → ℕ
    → List A
    → List ℕ
    → Type (ℓ ⊔ κ)
Appended {A} same s Valid seen n all xs =
    (els : List A) × (all ≡ seen ++ els)
    × (length els ≡ n)
    × All Valid els
    × IsDistinct same els
    × AreNew same seen els
    × (xs ≡ write_items s els)

module _ {ℓ κ} {A : Type ℓ} (same : A → A → Bool) {s : Serializer A} (duplicate : ReaderError)
    {Valid : A → Type κ} where
  pub Reads-unique :
      IsLawful s Valid
      → (seen els : List A) → All Valid els
      → IsDistinct same els
      → AreNew same seen els
      → Reads (read_unique same s duplicate (length els) seen) (write_items s els) (seen ++ els)
  unfolding read_unique write_items
  Reads-unique l seen [] v d n = Reads-value (Reads-pure seen) (sym (append-nil seen))
  Reads-unique l seen (el ∷ els) v d n = Reads-bind _ (l.reads el v.0) (
      rw n.0 (
        Reads-value
          (Reads-unique l (seen ++ el ∷ []) els v.1 d.1 (AreNew-snoc same seen el els n.1 d.0))
          (append_assoc seen (el ∷ []) els)))

  pub Yields-unique :
      IsStrict s Valid
      → (n : ℕ) (seen : List A)
      → Yields (read_unique same s duplicate n seen) (Appended same s Valid seen n)
  unfolding read_unique write_items
  Yields-unique st zero seen = Yields-pure seen ([], sym (append-nil seen), refl, tt, tt, tt, refl)
  Yields-unique st (suc n) seen = Yields-bind st.yields λ el xs h.
      Yields-if (contains same el seen) _ _ (λ _. Yields-throw _)
        λ fresh. Yields-imp (Yields-unique st n (seen ++ el ∷ [])) λ all ys k.
          let (new, apart) = AreNew-parts same seen el k.0 k.5 in
          (
            el ∷ k.0,
            k.1 ∙ append_assoc seen (el ∷ []) k.0,
            ap suc k.2,
            (h.0, k.3),
            (apart, k.4),
            (fresh, new),
            simp (h.1, k.6),
          )

  -- A whole set: the items are distinct, and were written in this order.
  pub Yields-set :
      IsStrict s Valid
      → (n : ℕ)
      → Yields (read_unique same s duplicate n []) (λ els xs.
        (length els ≡ n) × All Valid els × IsDistinct same els × (xs ≡ write_items s els))
  Yields-set st n = Yields-imp (Yields-unique st n []) λ all xs k. rw k.1 (k.2, k.3, k.4, k.6)
