-- ===== src/Daemon/Dag/Reachability/Walk.antt =====
-- The walk of `build_reachability` of xelis_daemon/src/core/blockchain.rs, on a storage that knows its blocks.
use blockchain_xelis.Prelude.{
  ℕ, zero, suc, ◌+◌, ◌*◌, ◌≤◌, ◌<◌, ◌≡◌, ◌↔◌, ◌⊎◌, inl, inr, refl, false, List, [], ◌∷◌, some, ok,
  leb, arith, All, Bool-cases,
}
use mathlib.Core.Path.{subst}
use blockchain_xelis.Daemon.BlockDag.{Hash, contains, collect_onto}
use blockchain_xelis.Daemon.BlockDag.Sets.{IsOneOf, contains_iff, All-at, IsOneOf-collect_onto}
use blockchain_xelis.Daemon.SideBlock.{stable_limit}
use blockchain_xelis.Daemon.Dag.{DagProvider}
use blockchain_xelis.Daemon.Dag.View.{
  View, weight_at, weight_at-bound, stack_weight, stack_weight-tips,
}
use blockchain_xelis.Daemon.Dag.Reachability.{reach_tips, reach_loop, build_reachability}

module _ {E : Type 0} (provider : DagProvider E) (view : View provider) where
  open view use {tips_of, height_of, tips, few, below}

  -- The block, and all that it stands on.
  pub data Ancestor (root : Hash) : Hash → Type 0 where
    here : Ancestor root root
    step : {hash tip : Hash} → Ancestor root hash → IsOneOf tip (tips_of hash) → Ancestor root tip

  abbrev hashes : List (Hash × ℕ) → List Hash
  hashes [] = []
  hashes (entry ∷ stack) = entry.0 ∷ hashes stack

  -- A level is at most what the block is below the root.
  abbrev IsLevelled : Hash → Hash × ℕ → Type 0
  IsLevelled root entry = Ancestor root entry.0 × (entry.1 + height_of entry.0 ≤ height_of root)

  reach_tips_lem :
      (set l : List Hash) (level : ℕ) (stack : List (Hash × ℕ))
      → ((x : Hash)
          → IsOneOf x (hashes (reach_tips set level l stack))
            ↔ (IsOneOf x (hashes stack) ⊎ (IsOneOf x l × (contains set x ≡ false))))
        × (stack_weight height_of (hashes (reach_tips set level l stack))
            ≤ stack_weight height_of l + stack_weight height_of (hashes stack))
  unfolding reach_tips stack_weight
  reach_tips_lem set [] level stack =
      ((λ x. ((λ m. inl m), (λ w. elim w [ inl m ↦ m | inr t ↦ absurd t.0 ]))), omega arith)
  reach_tips_lem set (t ∷ l) level stack = elim (Bool-cases (contains set t)) [
    | inl known ↦
        let (members, weight) = reach_tips_lem set l level stack in
        rw (reach_tips, known)
          (
            (λ x. (
              (λ m. elim ((members x).0 m) [ inl k ↦ inl k | inr (k, c) ↦ inr (inr k, c) ]),
              (λ w. (members x).1 (elim w [
                | inl k ↦ inl k
                | inr (inl e, c) ↦
                    let c' : contains set t ≡ false = rw (← e) c in
                    absurd (ground (arith, c', known))
                | inr (inr k, c) ↦ inr (k, c)
              ])),
            )),
            omega (arith, weight),
          )
    | inr new ↦
        let (members, weight) = reach_tips_lem set l level ((t, level + 1) ∷ stack) in
        rw (reach_tips, new)
          (
            (λ x. (
              (λ m. elim ((members x).0 m) [
                | inl (inl e) ↦ inr (inl e, rw (e) new)
                | inl (inr k) ↦ inl k
                | inr (k, c) ↦ inr (inr k, c)
              ]),
              (λ w. (members x).1 (elim w [
                | inl k ↦ inl (inr k)
                | inr (inl e, c) ↦ inl (inl e)
                | inr (inr k, c) ↦ inr (k, c)
              ])),
            )),
            omega (arith, weight),
          )
  ]

  reach_tips-All :
      (root x : Hash) (set l : List Hash) (level : ℕ) (stack : List (Hash × ℕ))
      → IsLevelled root (x, level)
      → ((t : Hash) → IsOneOf t l → IsOneOf t (tips_of x))
      → All (λ entry. IsLevelled root entry) stack
      → All (λ entry. IsLevelled root entry) (reach_tips set level l stack)
  unfolding reach_tips
  reach_tips-All root x set [] level stack at sub all = all
  reach_tips-All root x set (t ∷ l) level stack at sub all =
      let low =
        All-at (λ y. height_of y < height_of x) t (tips_of x) (below x) (sub t (inl refl)) in
      let bound = at.1 in
      elim (Bool-cases (contains set t)) [
        | inl known ↦
            rw (reach_tips, known)
              (reach_tips-All root x set l level stack at (λ y m. sub y (inr m)) all)
        | inr new ↦
            rw (reach_tips, new)
              (reach_tips-All root x set l level ((t, level + 1) ∷ stack) at (λ y m. sub y (inr m))
                ((step at.0 (sub t (inl refl)), omega (arith, low, bound)), all))
      ]

  record Inv (root : Hash) (stack : List (Hash × ℕ)) (set : List Hash) : Type 0 where
    levelled : All (λ entry. IsLevelled root entry) stack
    ancestors : (x : Hash) → IsOneOf x set → Ancestor root x
    -- Blocks near the root have all their tips reached.
    closed :
        (x tip : Hash)
        → IsOneOf x set
        → height_of root < height_of x + 2 * stable_limit
        → IsOneOf tip (tips_of x)
        → IsOneOf tip set ⊎ IsOneOf tip (hashes stack)
    begun : IsOneOf root set ⊎ IsOneOf root (hashes stack)

  -- A round of the walk: the top goes into the set, and its tips onto the stack unless it is too deep.
  Inv-round :
      (root x : Hash) (level : ℕ) (stack pushed : List (Hash × ℕ)) (set : List Hash)
      → Inv root ((x, level) ∷ stack) set
      → All (λ entry. IsLevelled root entry) pushed
      → ((y : Hash) → IsOneOf y (hashes stack) → IsOneOf y (hashes pushed))
      → ((tip : Hash)
          → height_of root < height_of x + 2 * stable_limit
          → IsOneOf tip (tips_of x)
          → IsOneOf tip (collect_onto set (x ∷ [])) ⊎ IsOneOf tip (hashes pushed))
      → Inv root pushed (collect_onto set (x ∷ []))
  Inv-round root x level stack pushed set i all keep reached = record {
    levelled = all;
    ancestors = λ y m. elim ((insert y).0 m) [
      | inl old ↦ i.ancestors y old
      | inr (inl e) ↦ rw (e) (i.levelled.0.0)
      | inr (inr z) ↦ absurd z
    ];
    closed = λ y tip m near t. elim ((insert y).0 m) [
      | inl old ↦ carry tip (i.closed y tip old near t)
      | inr (inl e) ↦
          let near' =
            subst (λ (h : Hash). height_of root < height_of h + 2 * stable_limit) e near in
          let t' = subst (λ (h : Hash). IsOneOf tip (tips_of h)) e t in reached tip near' t'
      | inr (inr z) ↦ absurd z
    ];
    begun = carry root i.begun;
  }
    where
      insert :
          (y : Hash) → IsOneOf y (collect_onto set (x ∷ [])) ↔ (IsOneOf y set ⊎ IsOneOf y (x ∷ []))
      insert y = IsOneOf-collect_onto y set (x ∷ [])

      carry :
          (y : Hash)
          → IsOneOf y set ⊎ IsOneOf y (hashes ((x, level) ∷ stack))
          → IsOneOf y (collect_onto set (x ∷ [])) ⊎ IsOneOf y (hashes pushed)
      carry y (inl old) = inl ((insert y).1 (inl old))
      carry y (inr (inl e)) = inl ((insert y).1 (inr (inl e)))
      carry y (inr (inr k)) = inr (keep y k)

  reach_loop-Inv :
      (root : Hash) (fuel : ℕ) (stack : List (Hash × ℕ)) (set : List Hash)
      → Inv root stack set
      → stack_weight height_of (hashes stack) ≤ fuel
      → (end : List Hash) × (reach_loop provider fuel stack set ≡ some (ok end)) × Inv root [] end
  unfolding reach_loop stack_weight
  reach_loop-Inv root fuel [] set i enough = (set, refl, i)
  reach_loop-Inv root zero (x ∷ stack) set i enough =
      absurd (omega (arith, weight_at-bound (height_of x.0)))
  reach_loop-Inv root (suc fuel) ((x, level) ∷ stack) set i enough =
      let heavy = weight_at-bound (height_of x) in
      let inserted = collect_onto set (x ∷ []) in
      elim (Bool-cases (leb (2 * stable_limit) level)) [
        | inl deep ↦
            let low = i.levelled.0.1 in
            let (end, run, final) =
              reach_loop-Inv root fuel stack inserted
                (Inv-round root x level stack stack set i i.levelled.1 (λ y m. m)
                  (λ tip near t. absurd (ground (arith, deep, low, near))))
                (omega (arith, heavy)) in
            (end, rw (reach_loop, deep) run, final)
        | inr shallow ↦
            let (members, weight) = reach_tips_lem inserted (tips_of x) level stack in
            let less = stack_weight-tips height_of (height_of x) (tips_of x) (few x) (below x) in
            let pushed = reach_tips inserted level (tips_of x) stack in
            let (end, run, final) =
              reach_loop-Inv root fuel pushed inserted
                (Inv-round root x level stack pushed set i
                  (reach_tips-All root x inserted (tips_of x) level stack i.levelled.0 (λ t m. m)
                    i.levelled.1)
                  (λ y m. (members y).1 (inl m))
                  (λ tip near t. elim (Bool-cases (contains inserted tip)) [
                    | inl known ↦ inl ((contains_iff inserted tip).0 known)
                    | inr new ↦ inr ((members tip).1 (inr (t, new)))
                  ]))
                (omega (arith, less, weight)) in
            (end, rw (reach_loop, shallow, tips x) run, final)
      ]

  Ancestor-kept :
      {root x : Hash} {set : List Hash}
      → Inv root [] set
      → Ancestor root x
      → height_of root < height_of x + 2 * stable_limit
      → IsOneOf x set
  Ancestor-kept i here near = elim i.begun [ inl k ↦ k | inr z ↦ absurd z ]
  Ancestor-kept {root} i (step {hash} {tip} a m) near =
      let low = All-at (λ y. height_of y < height_of hash) tip (tips_of hash) (below hash) m in
      let close : height_of root < height_of hash + 2 * stable_limit = omega (arith, low, near) in
      elim (i.closed hash tip (Ancestor-kept i a close) close m) [ inl k ↦ k | inr z ↦ absurd z ]

  -- What the walk returns: blocks that the root stands on, all those less than 16 below it among them.
  pub record IsReach (root : Hash) (set : List Hash) : Type 0 where
    pub sound : (x : Hash) → IsOneOf x set → Ancestor root x
    pub near :
        (x : Hash)
        → Ancestor root x
        → height_of root < height_of x + 2 * stable_limit
        → IsOneOf x set

  pub build_reachability-IsReach :
      (fuel : ℕ) (root : Hash)
      → weight_at (height_of root) ≤ fuel
      → (set : List Hash) × (build_reachability provider fuel root ≡ some (ok set))
        × IsReach root set
  unfolding build_reachability stack_weight
  build_reachability-IsReach fuel root enough =
      let start : Inv root ((root, 0) ∷ []) [] = record {
        levelled = ((here, omega arith), tt);
        ancestors = λ x m. absurd m;
        closed = λ x tip m. absurd m;
        begun = inr (inl refl);
      } in
      let (set, run, i) = reach_loop-Inv root fuel ((root, 0) ∷ []) [] start (omega arith) in
      (set, run, record { sound = i.ancestors; near = λ x a n. Ancestor-kept i a n })
