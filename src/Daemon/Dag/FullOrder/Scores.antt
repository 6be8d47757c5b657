-- ===== src/Daemon/Dag/FullOrder/Scores.antt =====
-- What `generate_full_order` pushes for a block, on a storage that knows its blocks.
use blockchain_xelis.Prelude.{
  ℕ, ◌+◌, ◌≤◌, ◌≡◌, refl, ◌↔◌, ◌⊎◌, inl, inr, Bool, true, false, List, [], ◌∷◌, ◌++◌, leb, ok,
  arith, insert_by, sort_by, Bool-cases,
}
use blockchain_xelis.Daemon.BlockDag.{Hash, ascending, sort_ascending_by_cumulative_difficulty}
use blockchain_xelis.Daemon.BlockDag.Sets.{IsOneOf}
use blockchain_xelis.Daemon.Dag.{DagProvider}
use blockchain_xelis.Daemon.Dag.View.{View, stack_weight, weight_at}
use blockchain_xelis.Daemon.Dag.FullOrder.{push_scores, is_above_base, order_scores}

abbrev hashes_of : List (Hash × ℕ) → List Hash
hashes_of [] = []
hashes_of (s ∷ l) = s.0 ∷ hashes_of l

IsOneOf-insert :
    (t : Hash) (a : Hash × ℕ) (l : List (Hash × ℕ))
    → IsOneOf t (hashes_of (insert_by ascending a l)) ↔ ((t ≡ a.0) ⊎ IsOneOf t (hashes_of l))
IsOneOf-insert t a [] = ground arith
IsOneOf-insert t a (b ∷ l) = elim (Bool-cases (ascending a b)) [
  | inl e ↦ rw (e) ((λ m. m), (λ m. m))
  | inr e ↦ rw (e) (ground (arith, IsOneOf-insert t a l))
]

IsOneOf-sort :
    (t : Hash) (l : List (Hash × ℕ))
    → IsOneOf t (hashes_of (sort_by ascending l)) ↔ IsOneOf t (hashes_of l)
IsOneOf-sort t [] = ((λ m. m), (λ m. m))
IsOneOf-sort t (a ∷ l) = ground (arith, IsOneOf-insert t a (sort_by ascending l), IsOneOf-sort t l)

IsOneOf-push :
    (t : Hash) (l : List (Hash × ℕ)) (s : List Hash)
    → IsOneOf t (push_scores l s) ↔ (IsOneOf t (hashes_of l) ⊎ IsOneOf t s)
unfolding push_scores
IsOneOf-push t [] s = ((λ m. inr m), (λ w. elim w [ inl z ↦ absurd z | inr m ↦ m ]))
IsOneOf-push t (a ∷ l) s = ground (arith, IsOneOf-push t l (a.0 ∷ s))

push_scores-append :
    (l : List (Hash × ℕ)) (s m : List Hash) → push_scores l (s ++ m) ≡ push_scores l s ++ m
unfolding push_scores
push_scores-append [] s m = refl
push_scores-append (a ∷ l) s m = push_scores-append l (a.0 ∷ s) m

module _ (height_of : Hash → ℕ) where
  weight-insert :
      (a : Hash × ℕ) (l : List (Hash × ℕ))
      → stack_weight height_of (hashes_of (insert_by ascending a l))
        ≡ weight_at (height_of a.0) + stack_weight height_of (hashes_of l)
  unfolding stack_weight
  weight-insert a [] = refl
  weight-insert a (b ∷ l) = elim (Bool-cases (ascending a b)) [
    | inl e ↦ rw (e) refl
    | inr e ↦ rw (e) (omega (arith, weight-insert a l))
  ]

  weight-sort :
      (l : List (Hash × ℕ))
      → stack_weight height_of (hashes_of (sort_by ascending l))
        ≡ stack_weight height_of (hashes_of l)
  unfolding stack_weight
  weight-sort [] = refl
  weight-sort (a ∷ l) = omega (arith, weight-insert a (sort_by ascending l), weight-sort l)

  weight-push :
      (l : List (Hash × ℕ)) (s : List Hash)
      → stack_weight height_of (push_scores l s)
        ≡ stack_weight height_of (hashes_of l) + stack_weight height_of s
  unfolding push_scores stack_weight
  weight-push [] s = omega arith
  weight-push (a ∷ l) s = omega (arith, weight-push l (a.0 ∷ s))

module _ {E : Type 0} (provider : DagProvider E) (view : View provider) (base_topo : ℕ) where
  open view use {height_of, topoheight_of, topoheights, works}

  -- A block that is not ordered below the base.
  abbrev pub IsAbove : Hash → Type 0
  IsAbove tip =
      (provider.is_block_topological_ordered tip ≡ false)
      ⊎ ((provider.is_block_topological_ordered tip ≡ true) × (base_topo ≤ topoheight_of tip))

  pub is_above_base_lem :
      (tip : Hash)
      → (b : Bool) × (is_above_base provider base_topo tip ≡ ok b) × ((b ≡ true) ↔ IsAbove tip)
  unfolding is_above_base
  is_above_base_lem tip = elim (Bool-cases (provider.is_block_topological_ordered tip)) [
    | inr u ↦ (true, rw (is_above_base, u) refl, ((λ e. inl u), (λ a. refl)))
    | inl o ↦ (
      leb base_topo (topoheight_of tip),
      rw (is_above_base, o, topoheights tip o) refl,
      ((λ e. ground (arith, e)), (λ a. ground (arith, a, o))),
    )
  ]

  order_scores_lem :
      (l : List Hash)
      → (scores : List (Hash × ℕ)) × (order_scores provider base_topo l ≡ ok scores)
        × ((t : Hash) → IsOneOf t (hashes_of scores) ↔ (IsOneOf t l × IsAbove t))
        × (stack_weight height_of (hashes_of scores) ≤ stack_weight height_of l)
  unfolding order_scores stack_weight
  order_scores_lem [] = ([], refl, (λ t. ((λ m. absurd m), (λ w. absurd w.0))), omega arith)
  order_scores_lem (x ∷ l) =
      let (b, test, law) = is_above_base_lem x in
      let (scores, run, members, weight) = order_scores_lem l in
      elim (Bool-cases b) [
        | inl above ↦ (
          (x, view.work_of x) ∷ scores,
          rw (order_scores, test, above, works x, run) refl,
          (λ t. (
            (λ m. elim m [
              | inl e ↦ (inl e, rw (e) (law.0 above))
              | inr k ↦ let w = (members t).0 k in (inr w.0, w.1)
            ]),
            (λ w. elim w.0 [ inl e ↦ inl e | inr k ↦ inr ((members t).1 (k, w.1)) ]),
          )),
          omega (arith, weight),
        )
        | inr below ↦ (
          scores,
          rw (order_scores, test, below) run,
          (λ t. (
            (λ m. let w = (members t).0 m in (inr w.0, w.1)),
            (λ w. elim w.0 [
              | inl e ↦
                  let a : IsAbove x = rw (← e) (w.1) in absurd (ground (arith, below, law.1 a))
              | inr k ↦ (members t).1 (k, w.1)
            ]),
          )),
          omega (arith, weight),
        )
      ]

  -- The tips above the base, pushed onto the stack.
  pub record Pushed (l q : List Hash) (scores : List (Hash × ℕ)) : Type 0 where
    pub scored : order_scores provider base_topo l ≡ ok scores
    pub onto :
        (s : List Hash) → push_scores (sort_ascending_by_cumulative_difficulty scores) s ≡ q ++ s
    pub members : (t : Hash) → IsOneOf t q ↔ (IsOneOf t l × IsAbove t)
    pub weight : stack_weight height_of q ≤ stack_weight height_of l

  pub order_scores-Pushed :
      (l : List Hash) → (q : List Hash) × (scores : List (Hash × ℕ)) × Pushed l q scores
  unfolding sort_ascending_by_cumulative_difficulty stack_weight
  order_scores-Pushed l =
      let (scores, run, members, weight) = order_scores_lem l in
      let sorted = sort_by ascending scores in
      let weighed = weight-push height_of sorted [] in
      let same = weight-sort height_of scores in
      (
        push_scores sorted [],
        scores,
        record {
          scored = run;
          onto = λ s. push_scores-append sorted [] s;
          members = λ t.
              let pushed = IsOneOf-push t sorted [] in
              let kept = IsOneOf-sort t scores in
              let m = members t in
              (
                (λ k. elim (pushed.0 k) [ inl x ↦ m.0 (kept.0 x) | inr z ↦ absurd z ]),
                (λ w. pushed.1 (inl (kept.1 (m.1 w)))),
              );
          weight = omega (arith, weighed, same, weight);
        },
      )
