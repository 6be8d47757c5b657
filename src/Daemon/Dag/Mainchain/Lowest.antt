-- ===== src/Daemon/Dag/Mainchain/Lowest.antt =====
-- The walk from a block to the ordered blocks that its unordered past stands on, on a storage that knows its blocks.
use blockchain_xelis.Prelude.{
  ℕ, zero, suc, ◌+◌, ◌-◌, ◌≤◌, ◌≡◌, ◌⊎◌, ◌↔◌, inl, inr, refl, true, false, List, [], ◌∷◌, some, ltb,
  if◌then◌else◌, ok, arith, u64_mod, Bool-cases,
}
use blockchain_xelis.Daemon.BlockDag.{Hash, contains}
use blockchain_xelis.Daemon.BlockDag.Sets.{IsOneOf, contains_iff}
use blockchain_xelis.Daemon.Dag.{DagProvider}
use blockchain_xelis.Daemon.Dag.View.{
  View, weight_at, weight_at-bound, stack_weight, stack_weight-tips,
}
use blockchain_xelis.Daemon.Dag.Mainchain.{
  lowest_tips, lowest_loop, find_lowest_height_from_mainchain,
}

module _ {E : Type 0} (provider : DagProvider E) (view : View provider) where
  open view use {height_of, tips_of, heights, tips, few, below}
  open provider use {is_block_topological_ordered as is_ordered}

  -- The blocks that are reached from `root` over unordered ones.
  pub data Walk (root : Hash) : Hash → Type 0 where
    here : Walk root root
    step :
        {hash tip : Hash}
        → Walk root hash
        → IsOneOf tip (tips_of hash)
        → is_ordered tip ≡ false
        → Walk root tip

  -- An ordered tip of such a block.
  abbrev pub IsFound : Hash → Hash → Type 0
  IsFound root tip =
      (hash : Hash) × Walk root hash × IsOneOf tip (tips_of hash) × (is_ordered tip ≡ true)

  -- What the loop over the tips `l` leaves of a stack and a height.
  record Visit (l stack : List Hash) (low : ℕ) (stack' : List Hash) (low' : ℕ) : Type 0 where
    pushed :
        (x : Hash) → IsOneOf x stack' ↔ (IsOneOf x stack ⊎ (IsOneOf x l × (is_ordered x ≡ false)))
    lower : low' ≤ low
    bound : (x : Hash) → IsOneOf x l → is_ordered x ≡ true → low' ≤ height_of x
    reached :
        (low' ≡ low) ⊎ ((x : Hash) × IsOneOf x l × (is_ordered x ≡ true) × (height_of x ≡ low'))
    weight : stack_weight height_of stack' ≤ stack_weight height_of l + stack_weight height_of stack

  lowest_tips-Visit :
      (l stack : List Hash) (low : ℕ)
      → (stack' : List Hash) × (low' : ℕ) × (lowest_tips provider l stack low ≡ ok (stack', low'))
        × Visit l stack low stack' low'
  unfolding lowest_tips stack_weight
  lowest_tips-Visit [] stack low = (
    stack,
    low,
    refl,
    record {
      pushed = λ x. ((λ m. inl m), (λ w. elim w [ inl m ↦ m | inr t ↦ absurd t.0 ]));
      lower = omega arith;
      bound = λ x m. absurd m;
      reached = inl refl;
      weight = omega arith;
    },
  )
  lowest_tips-Visit (t ∷ l) stack low = elim (Bool-cases (is_ordered t)) [
    | inl o ↦
        let next = if ltb (height_of t) low then height_of t else low in
        let (stack', low', run, v) = lowest_tips-Visit l stack next in
        let both : (next ≤ low) × (next ≤ height_of t) = ground arith in
        (
          stack',
          low',
          rw (lowest_tips, o, heights t) run,
          record {
            pushed = λ x. (
              (λ m. elim ((v.pushed x).0 m) [ inl k ↦ inl k | inr k ↦ inr (inr k.0, k.1) ]),
              (λ w. (v.pushed x).1 (elim w [
                | inl k ↦ inl k
                | inr (inl e, u) ↦ absurd (ground (arith, e, u, o))
                | inr (inr k, u) ↦ inr (k, u)
              ])),
            );
            lower = omega (arith, v.lower, both.0);
            bound = λ x m ox. elim m [
              | inl e ↦ let b = v.lower in rw (e) (omega (arith, b, both.1))
              | inr later ↦ v.bound x later ox
            ];
            reached = elim v.reached [
              | inl same ↦ elim (Bool-cases (ltb (height_of t) low)) [
                | inl less ↦ inr (t, inl refl, o, ground (arith, same, less))
                | inr more ↦ inl (ground (arith, same, more))
              ]
              | inr (x, m, ox, e) ↦ inr (x, inr m, ox, e)
            ];
            weight = omega (arith, v.weight);
          },
        )
    | inr u ↦
        let (stack', low', run, v) = lowest_tips-Visit l (t ∷ stack) low in
        (
          stack',
          low',
          rw (lowest_tips, u) run,
          record {
            pushed = λ x. (
              (λ m. elim ((v.pushed x).0 m) [
                | inl (inl e) ↦ inr (inl e, rw (e) u)
                | inl (inr k) ↦ inl k
                | inr k ↦ inr (inr k.0, k.1)
              ]),
              (λ w. (v.pushed x).1 (elim w [
                | inl k ↦ inl (inr k)
                | inr (inl e, ux) ↦ inl (inl e)
                | inr (inr k, ux) ↦ inr (k, ux)
              ])),
            );
            lower = v.lower;
            bound = λ x m ox. elim m [
              | inl e ↦ absurd (ground (arith, e, ox, u))
              | inr later ↦ v.bound x later ox
            ];
            reached = elim v.reached [
              | inl same ↦ inl same
              | inr (x, m, ox, e) ↦ inr (x, inr m, ox, e)
            ];
            weight = omega (arith, v.weight);
          },
        )
  ]

  abbrev IsSeen : Hash → List Hash → List Hash → Type 0
  IsSeen x stack processed = IsOneOf x stack ⊎ IsOneOf x processed

  -- `walked` and `found` keep the walk inside the unordered past; `begun` and `closed` say that nothing of it is
  -- forgotten.
  record Inv (root : Hash) (stack processed : List Hash) (low : ℕ) : Type 0 where
    walked : (x : Hash) → IsOneOf x stack → Walk root x
    found : (low ≡ u64_mod - 1) ⊎ ((x : Hash) × IsFound root x × (height_of x ≡ low))
    begun : IsSeen root stack processed
    closed :
        (x tip : Hash)
        → IsOneOf x processed
        → IsOneOf tip (tips_of x)
        → ((is_ordered tip ≡ true) → low ≤ height_of tip)
          × ((is_ordered tip ≡ false) → IsSeen tip stack processed)
    top : low ≤ u64_mod - 1

  Inv-skip :
      {root x : Hash} {stack processed : List Hash} {low : ℕ}
      → Inv root (x ∷ stack) processed low
      → IsOneOf x processed
      → Inv root stack processed low
  Inv-skip {x} {stack} {processed} i old = record {
    walked = λ y m. i.walked y (inr m);
    found = i.found;
    begun = keep _ i.begun;
    closed = λ y tip m n. let both = i.closed y tip m n in (both.0, (λ u. keep tip (both.1 u)));
    top = i.top;
  }
    where
      keep : (y : Hash) → IsSeen y (x ∷ stack) processed → IsSeen y stack processed
      keep y (inl (inl e)) = inr (rw (e) old)
      keep y (inl (inr m)) = inl m
      keep y (inr m) = inr m

  Inv-Visit :
      {root x : Hash} {stack processed : List Hash} {low : ℕ} (stack' : List Hash) (low' : ℕ)
      → Inv root (x ∷ stack) processed low
      → Visit (tips_of x) stack low stack' low'
      → Inv root stack' (x ∷ processed) low'
  Inv-Visit {root} {x} {stack} {processed} stack' low' i v = record {
    walked = λ y m. elim ((v.pushed y).0 m) [
      | inl old ↦ i.walked y (inr old)
      | inr (t, u) ↦ step (i.walked x (inl refl)) t u
    ];
    found = elim v.reached [
      | inl same ↦ rw (same) i.found
      | inr (y, m, o, e) ↦ inr (y, (x, i.walked x (inl refl), m, o), e)
    ];
    begun = keep root i.begun;
    closed = λ y tip m n. elim m [
      | inl e ↦
          let n' : IsOneOf tip (tips_of x) = rw (← e) n in
          ((λ o. v.bound tip n' o), (λ u. inl ((v.pushed tip).1 (inr (n', u)))))
      | inr old ↦
          let both = i.closed y tip old n in
          (
            (λ o. let a = both.0 o in let b = v.lower in omega (arith, a, b)),
            (λ u. keep tip (both.1 u)),
          )
    ];
    top = let a = v.lower in let b = i.top in omega (arith, a, b);
  }
    where
      keep : (y : Hash) → IsSeen y (x ∷ stack) processed → IsSeen y stack' (x ∷ processed)
      keep y (inl (inl e)) = inr (inl e)
      keep y (inl (inr m)) = inl ((v.pushed y).1 (inl m))
      keep y (inr m) = inr (inr m)

  lowest_loop-Inv :
      (root : Hash) (fuel : ℕ) (stack processed : List Hash) (low : ℕ)
      → Inv root stack processed low
      → stack_weight height_of stack ≤ fuel
      → (m : ℕ) × (seen : List Hash) × (lowest_loop provider fuel stack processed low ≡ some (ok m))
        × Inv root [] seen m
  unfolding lowest_loop stack_weight
  lowest_loop-Inv root fuel [] processed low i enough = (low, processed, refl, i)
  lowest_loop-Inv root zero (x ∷ stack) processed low i enough =
      absurd (omega (arith, weight_at-bound (height_of x)))
  lowest_loop-Inv root (suc fuel) (x ∷ stack) processed low i enough =
      let heavy = weight_at-bound (height_of x) in
      elim (Bool-cases (contains processed x)) [
        | inl old ↦
            let (m, seen, run, end) =
              lowest_loop-Inv root fuel stack processed low
                (Inv-skip i ((contains_iff processed x).0 old)) (omega (arith, heavy)) in
            (m, seen, rw (lowest_loop, old) run, end)
        | inr new ↦
            let (stack', low', visit, v) = lowest_tips-Visit (tips_of x) stack low in
            let less = stack_weight-tips height_of (height_of x) (tips_of x) (few x) (below x) in
            let w = v.weight in
            let (m, seen, run, end) =
              lowest_loop-Inv root fuel stack' (x ∷ processed) low' (Inv-Visit stack' low' i v)
                (omega (arith, less, w)) in
            (m, seen, rw (lowest_loop, new, tips x, visit) run, end)
      ]

  Walk-seen :
      {root x : Hash} {seen : List Hash} {m : ℕ} → Inv root [] seen m → Walk root x → IsOneOf x seen
  Walk-seen i here = elim i.begun [ inl z ↦ absurd z | inr k ↦ k ]
  Walk-seen i (step {hash} {tip} w m u) = elim ((i.closed hash tip (Walk-seen i w) m).1 u) [
    | inl z ↦ absurd z
    | inr k ↦ k
  ]

  -- On a storage that knows its blocks, with as much fuel as the height of the block asks for, the walk ends: the height is that of an ordered tip of a block
  -- reached over unordered ones, or 2 ^ 64 - 1 if there is none, and no such tip is lower.
  pub find_lowest_height_lem :
      (fuel : ℕ) (root : Hash)
      → weight_at (height_of root) ≤ fuel
      → (m : ℕ) × (find_lowest_height_from_mainchain provider fuel root ≡ some (ok m))
        × ((x : Hash) → IsFound root x → m ≤ height_of x)
        × ((m ≡ u64_mod - 1) ⊎ ((x : Hash) × IsFound root x × (height_of x ≡ m)))
  unfolding find_lowest_height_from_mainchain stack_weight
  find_lowest_height_lem fuel root enough =
      let start : Inv root (root ∷ []) [] (u64_mod - 1) = record {
        walked = λ x m. elim m [ inl e ↦ rw (e) here | inr z ↦ absurd z ];
        found = inl refl;
        begun = inl (inl refl);
        closed = λ x tip m. absurd m;
        top = omega arith;
      } in
      let (m, seen, run, i) =
        lowest_loop-Inv root fuel (root ∷ []) [] (u64_mod - 1) start (omega arith) in
      (m, run, (λ x f. (i.closed f.0 x (Walk-seen i f.1) f.2).0 f.3), i.found)
