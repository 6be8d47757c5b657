-- ===== src/Daemon/BlockDag/Tips.antt =====
-- What the searches among the tips return, for tips whose blocks the storage knows.
use blockchain_xelis.Prelude.{
  ℕ, ◌+◌, ◌%◌, ◌≤◌, ◌<◌, ◌≡◌, refl, sym, ap, ◌⊎◌, inl, inr, List, [], ◌∷◌, Option, none, some,
  arith, Result, ok, map, All, u64_mod, leb, ltb, if◌then◌else◌, Bool-cases,
}
use mathlib.Core.Path.{subst}
use mathlib.Core.List.{Permᴰ}
use mathlib.Core.List.Permᴰ.{nil, cons, swap, trans}
use blockchain_xelis.Daemon.BlockDag.{
  Hash, height_loop, calculate_height_at_tips, select_loop, find_best_tip_by_cumulative_difficulty,
  find_newest_tip_by_timestamp, scores_of, sort_tips,
}
use blockchain_xelis.Daemon.BlockDag.Sets.{IsOneOf, All-at}
use blockchain_xelis.Daemon.BlockDag.Order.{sort_descending_permuted}

map_permuted : (f : Hash → Hash × ℕ) {l m : List Hash} → Permᴰ l m → Permᴰ (map f l) (map f m)
map_permuted f nil = nil
map_permuted f (cons e p) = cons (ap f e) (map_permuted f p)
map_permuted f (swap e k) = swap (ap f e) (ap f k)
map_permuted f (trans p q) = trans (map_permuted f p) (map_permuted f q)

module _ {E : Type 0} (get : Hash → Result E ℕ) (value : Hash → ℕ) where
  -- The storage answers with its value for each of the tips.
  abbrev pub IsKnown : List Hash → Type 0
  IsKnown = All (λ hash. get hash ≡ ok (value hash))

  IsKnown-permuted : {l m : List Hash} → Permᴰ l m → IsKnown l → IsKnown m
  IsKnown-permuted nil known = known
  IsKnown-permuted (cons e p) known =
      (subst (λ (hash : Hash). get hash ≡ ok (value hash)) e known.0, IsKnown-permuted p known.1)
  IsKnown-permuted (swap e k) known = (
    subst (λ (hash : Hash). get hash ≡ ok (value hash)) k known.1.0,
    (subst (λ (hash : Hash). get hash ≡ ok (value hash)) e known.0, known.1.1),
  )
  IsKnown-permuted (trans p q) known = IsKnown-permuted q (IsKnown-permuted p known)

  -- `m` is the largest of the values and the number before.
  abbrev IsMaximum : List Hash → ℕ → ℕ → Type 0
  IsMaximum tips before m =
      (before ≤ m)
      × All (λ tip. value tip ≤ m) tips
      × ((m ≡ before) ⊎ ((tip : Hash) × IsOneOf tip tips × (value tip ≡ m)))

  height_loop_lem :
      (tips : List Hash) (before : ℕ)
      → IsKnown tips
      → (m : ℕ) × (height_loop get tips before ≡ ok m) × IsMaximum tips before m
  unfolding height_loop
  height_loop_lem [] before known = (before, refl, (omega arith, tt, inl refl))
  height_loop_lem (tip ∷ rest) before known =
      let next = if leb before (value tip) then value tip else before in
      let (m, e, (least, all, found)) = height_loop_lem rest next known.1 in
      let ways : (m ≡ before) ⊎ ((t : Hash) × IsOneOf t (tip ∷ rest) × (value t ≡ m)) = elim found [
        | inl same ↦ elim (Bool-cases (leb before (value tip))) [
          | inl above ↦ inr (tip, inl refl, ground (arith, same, above))
          | inr below ↦ inl (ground (arith, same, below))
        ]
        | inr (t, member, largest) ↦ inr (t, inr member, largest)
      ] in
      (m, rw (height_loop, known.0) e, (ground arith, (ground arith, all), ways))

  -- Of tips that the storage knows, at heights below 2 ^ 64 - 1, the height of a block is one above the largest
  -- height, which is the height of one of them.
  calculate_height_at_tips_lem :
      (tip : Hash) (rest : List Hash)
      → IsKnown (tip ∷ rest)
      → All (λ hash. value hash + 1 < u64_mod) (tip ∷ rest)
      → (m : ℕ) × (calculate_height_at_tips get (tip ∷ rest) ≡ ok (m + 1))
        × All (λ hash. value hash ≤ m) (tip ∷ rest)
        × ((best : Hash) × IsOneOf best (tip ∷ rest) × (value best ≡ m))
  unfolding calculate_height_at_tips
  calculate_height_at_tips_lem tip rest known small =
      let (m, e, (least, all, found)) = height_loop_lem (tip ∷ rest) 0 known in
      let best : (t : Hash) × IsOneOf t (tip ∷ rest) × (value t ≡ m) = elim found [
        | inl none_above ↦ (tip, inl refl, omega (arith, all.0))
        | inr highest ↦ highest
      ] in
      let bound : m + 1 < u64_mod =
        omega
          (arith, All-at (λ t. value t + 1 < u64_mod) best.0 (tip ∷ rest) small best.1, best.2) in
      let wrap : (m + 1) % u64_mod ≡ m + 1 = omega arith in
      (m, rw (calculate_height_at_tips, e, wrap) refl, all, best)

  select_loop_lem :
      (tips : List Hash) (before : ℕ) (selected : Option Hash)
      → IsKnown tips
      → (m : ℕ) × (before ≤ m)
        × All (λ tip. value tip ≤ m) tips
        × (((m ≡ before) × (select_loop get tips before selected ≡ ok (m, selected)))
            ⊎ ((best : Hash) × IsOneOf best tips
                × (value best ≡ m)
                × (before < m)
                × (select_loop get tips before selected ≡ ok (m, some best))))
  unfolding select_loop
  select_loop_lem [] before selected known = (before, omega arith, tt, inl (refl, refl))
  select_loop_lem (tip ∷ rest) before selected known = elim (Bool-cases (ltb before (value tip))) [
    | inl above ↦
        let (m, least, all, ways) = select_loop_lem rest (value tip) (some tip) known.1 in
        (
          m,
          ground (arith, least, above),
          (least, all),
          inr (elim ways [
            | inl (same, run) ↦ (
              tip,
              inl refl,
              sym same,
              ground (arith, same, above),
              rw (select_loop, known.0, above) run,
            )
            | inr (best, member, largest, beyond, run) ↦ (
              best,
              inr member,
              largest,
              ground (arith, beyond, above),
              rw (select_loop, known.0, above) run,
            )
          ]),
        )
    | inr below ↦
        let (m, least, all, ways) = select_loop_lem rest before selected known.1 in
        (
          m,
          least,
          (ground (arith, least, below), all),
          elim ways [
            | inl (same, run) ↦ inl (same, rw (select_loop, known.0, below) run)
            | inr (best, member, largest, beyond, run) ↦
                inr (best, inr member, largest, beyond, rw (select_loop, known.0, below) run)
          ],
        )
  ]

  -- The best tip, of tips that the storage knows and that all have a cumulative difficulty above 0, is one of them and none has a
  -- larger cumulative difficulty.
  pub find_best_tip_lem :
      (tip : Hash) (rest : List Hash)
      → IsKnown (tip ∷ rest)
      → All (λ hash. 0 < value hash) (tip ∷ rest)
      → (best : Hash) × (find_best_tip_by_cumulative_difficulty get (tip ∷ rest) ≡ ok best)
        × IsOneOf best (tip ∷ rest)
        × All (λ hash. value hash ≤ value best) (tip ∷ rest)
  unfolding find_best_tip_by_cumulative_difficulty
  find_best_tip_lem tip [] known positive = (tip, refl, inl refl, (omega arith, tt))
  find_best_tip_lem tip (next ∷ rest) known positive =
      let (m, least, all, ways) = select_loop_lem (tip ∷ next ∷ rest) 0 none known in
      elim ways [
        | inl (zero_found, run) ↦ absurd (omega (arith, zero_found, all.0, positive.0))
        | inr (best, member, largest, beyond, run) ↦ (
          best,
          rw (find_best_tip_by_cumulative_difficulty, run) refl,
          member,
          subst (λ (v : ℕ). All (λ hash. value hash ≤ v) (tip ∷ next ∷ rest)) (sym largest) all,
        )
      ]

  -- The newest tip, of tips that the storage knows and that all have a timestamp above 0, is one of them, comes with its timestamp,
  -- and none is later.
  find_newest_tip_lem :
      (tip : Hash) (rest : List Hash)
      → IsKnown (tip ∷ rest)
      → All (λ hash. 0 < value hash) (tip ∷ rest)
      → (newest : Hash) × (find_newest_tip_by_timestamp get (tip ∷ rest)
          ≡ ok (newest, value newest))
        × IsOneOf newest (tip ∷ rest)
        × All (λ hash. value hash ≤ value newest) (tip ∷ rest)
  unfolding find_newest_tip_by_timestamp
  find_newest_tip_lem tip [] known positive =
      (tip, rw (find_newest_tip_by_timestamp, known.0) refl, inl refl, (omega arith, tt))
  find_newest_tip_lem tip (next ∷ rest) known positive =
      let (m, least, all, ways) = select_loop_lem (tip ∷ next ∷ rest) 0 none known in
      elim ways [
        | inl (zero_found, run) ↦ absurd (omega (arith, zero_found, all.0, positive.0))
        | inr (newest, member, largest, beyond, run) ↦ (
          newest,
          rw (largest, find_newest_tip_by_timestamp, run) refl,
          member,
          subst (λ (v : ℕ). All (λ hash. value hash ≤ v) (tip ∷ next ∷ rest)) (sym largest) all,
        )
      ]

  scores_of_lem :
      (tips : List Hash)
      → IsKnown tips
      → scores_of get tips ≡ ok (map (λ hash. (hash, value hash)) tips)
  unfolding scores_of
  scores_of_lem [] known = refl
  scores_of_lem (tip ∷ rest) known = rw (scores_of, known.0, scores_of_lem rest known.1) refl

  -- Sorting two or more tips that the storage knows does not depend on the order in which they come.
  pub sort_tips_permuted :
      (a b c d : Hash) (l m : List Hash)
      → IsKnown (a ∷ b ∷ l)
      → Permᴰ (a ∷ b ∷ l) (c ∷ d ∷ m)
      → sort_tips get (a ∷ b ∷ l) ≡ sort_tips get (c ∷ d ∷ m)
  unfolding sort_tips
  sort_tips_permuted a b c d l m known p =
      let score : Hash → Hash × ℕ = λ hash. (hash, value hash) in
      let same =
        sort_descending_permuted (map score (a ∷ b ∷ l)) (map score (c ∷ d ∷ m))
          (map_permuted score p) in
      rw
        (
          sort_tips,
          scores_of_lem (a ∷ b ∷ l) known,
          scores_of_lem (c ∷ d ∷ m) (IsKnown-permuted p known),
          same,
        )
        refl
