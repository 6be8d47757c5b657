-- ===== src/Prelude/Sort.antt =====
-- `sort_by` of the standard library: a stable sort by a comparison, as insertion.
use mathlib.Core.Path.{◌≡◌, refl, ◌∙◌}
use mathlib.Core.Logic.{◌↔◌, inl, inr}
use mathlib.Core.Bool.{Bool, true, false}
use mathlib.Core.List.{List, [], ◌∷◌, Perm, Permᴰ}
use mathlib.Core.List.Perm
use mathlib.Core.List.Permᴰ.{nil, cons, swap, trans}
use native.Mathlib.Omega.{arith}
use blockchain_xelis.Prelude.Tests.{if◌then◌else◌, Bool-cases}
use blockchain_xelis.Prelude.Lists.{All}

module _ {ℓ} {A : Type ℓ} (in_order : A → A → Bool) where
  abbrev pub insert_by : A → List A → List A
  insert_by a [] = a ∷ []
  insert_by a (b ∷ rest) = if in_order a b then a ∷ b ∷ rest else b ∷ insert_by a rest

  abbrev pub sort_by : List A → List A
  sort_by [] = []
  sort_by (a ∷ rest) = insert_by a (sort_by rest)

  -- Each element is in order with all that follow.
  abbrev pub IsSorted : List A → Type ℓ
  IsSorted [] = Unit
  IsSorted (a ∷ rest) = All (λ b. in_order a b ≡ true) rest × IsSorted rest

  insert_by-perm : (a : A) (l : List A) → Perm (insert_by a l) (a ∷ l)
  insert_by-perm a [] = Perm.rfl
  insert_by-perm a (b ∷ rest) = elim (Bool-cases (in_order a b)) [
    | inl e ↦ rw (e) Perm.rfl
    | inr e ↦ rw (e) (Perm.trans (Perm.cons b (insert_by-perm a rest)) (Perm.swap a b rest))
  ]

  -- Sorting permutes.
  pub sort_by-perm : (l : List A) → Perm (sort_by l) l
  sort_by-perm [] = Perm.rfl
  sort_by-perm (a ∷ rest) =
      Perm.trans (insert_by-perm a (sort_by rest)) (Perm.cons a (sort_by-perm rest))

  -- What all elements satisfy before the sort, they satisfy after it, and the other way around.
  All-insert_by {κ} :
      (P : A → Type κ) (a : A) (l : List A) → All P (insert_by a l) ↔ (P a × All P l)
  All-insert_by P a [] = ((λ h. h), (λ h. h))
  All-insert_by P a (b ∷ rest) = elim (Bool-cases (in_order a b)) [
    | inl e ↦ rw (e) ((λ h. h), (λ h. h))
    | inr e ↦
        let ih = All-insert_by P a rest in
        rw (e) (
          (λ h. let k = ih.0 h.1 in (k.0, (h.0, k.1))),
          (λ (p, rest_all). (rest_all.0, ih.1 (p, rest_all.1))),
        )
  ]

  pub All-sort_by {κ} : (P : A → Type κ) (l : List A) → All P (sort_by l) ↔ All P l
  All-sort_by P [] = ((λ h. h), (λ h. h))
  All-sort_by P (a ∷ rest) =
      let here = All-insert_by P a (sort_by rest) in
      let ih = All-sort_by P rest in
      ((λ h. let k = here.0 h in (k.0, ih.0 k.1)), (λ h. here.1 (h.0, ih.1 h.1)))

  module _ (total : (a b : A) → in_order a b ≡ false → in_order b a ≡ true)
      (transitive : (a b c : A)
        → in_order a b ≡ true
        → in_order b c ≡ true
        → in_order a c ≡ true) where
    All-trans :
        (a b : A) (l : List A)
        → in_order a b ≡ true
        → All (λ c. in_order b c ≡ true) l
        → All (λ c. in_order a c ≡ true) l
    All-trans a b [] h all = tt
    All-trans a b (c ∷ rest) h all = (transitive a b c h all.0, All-trans a b rest h all.1)

    insert_by-IsSorted : (a : A) (l : List A) → IsSorted l → IsSorted (insert_by a l)
    insert_by-IsSorted a [] h = (tt, tt)
    insert_by-IsSorted a (b ∷ rest) h = elim (Bool-cases (in_order a b)) [
      | inl e ↦ rw (e) ((e, All-trans a b rest e h.0), h)
      | inr e ↦
          rw (e) ((All-insert_by _ a rest).1 (total a b e, h.0), insert_by-IsSorted a rest h.1)
    ]

    -- Sorting sorts, by a comparison that is total and transitive.
    pub sort_by-IsSorted : (l : List A) → IsSorted (sort_by l)
    sort_by-IsSorted [] = tt
    sort_by-IsSorted (a ∷ rest) = insert_by-IsSorted a (sort_by rest) (sort_by-IsSorted rest)

    module _ (antisymmetric : (a b : A) → in_order a b ≡ true → in_order b a ≡ true → a ≡ b) where
      insert_by_comm :
          (a b : A) (l : List A) → insert_by a (insert_by b l) ≡ insert_by b (insert_by a l)
      insert_by_comm a b [] = ground (arith, total a b, antisymmetric a b)
      insert_by_comm a b (c ∷ rest) =
          let ih = insert_by_comm a b rest in
          ground (arith, total a b, antisymmetric a b, transitive a b c, transitive b a c)

      -- Two arrangements of the same elements are sorted to the same list.
      pub sort_by_permuted : {l m : List A} → Permᴰ l m → sort_by l ≡ sort_by m
      sort_by_permuted nil = refl
      sort_by_permuted (cons {l₂ = m} e p) = rw (e, sort_by_permuted p) refl
      sort_by_permuted (swap {a} {b} {l = l} e f) = rw (← e, ← f) (insert_by_comm a b (sort_by l))
      sort_by_permuted (trans p q) = sort_by_permuted p ∙ sort_by_permuted q
